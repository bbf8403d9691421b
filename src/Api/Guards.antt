-- ===== src/Api/Guards.antt =====
-- The two flags: what is done once, and what is not done at all.
use crashkit.Prelude.{
  suc, ◌≡◌, ◌⊎◌, refl, subst, Bool, true, false, not, ◌&&◌, Option, some, arith, if◌then◌else◌, inl,
  inr, Bool-cases, some_cancel,
}
use crashkit.Prelude.Bytes.{Bytes}
use crashkit.Bridge.{Crashpad}
use crashkit.Api.{InitCall, Api, Result, returned, threw, marker_file, delete, init}
use crashkit.Api.Init.{Ran, pending, consume-Ran}

-- The callback runs: this is a first call on a loaded library, there is a callback, and there is a
-- marker file.
abbrev pub fires : InitCall → Api → Bool
fires call s =
    (s.library_loaded && not s.inited) && pending call.config.on_crash (s.files (marker_file call))

pub record InitDone (deletes : Bytes → Bool) (call : InitCall) (s : Api) (r : Result × Api)
    : Type 0 where
  pub invoked : r.1.invoked ≡ (if fires call s then suc s.invoked else s.invoked)
  pub files :
      r.1.files ≡ (if fires call s then delete deletes (marker_file call) s.files else s.files)
  pub library_loaded : r.1.library_loaded ≡ s.library_loaded
  pub result :
      (s.library_loaded ≡ false) × (r.0 ≡ returned false) × (r.1.inited ≡ s.inited)
      ⊎ (s.library_loaded ≡ true)
        × ((r.0 ≡ returned r.1.inited) ⊎ ((r.0 ≡ threw) × (fires call s ≡ true)))

unchanged :
    (deletes : Bytes → Bool) (call : InitCall) (s : Api) (b : Bool)
    → fires call s ≡ false
    → (s.library_loaded ≡ false) × (returned b ≡ returned false) × (s.inited ≡ s.inited)
      ⊎ (s.library_loaded ≡ true)
        × ((returned b ≡ returned s.inited) ⊎ ((returned b ≡ threw) × (fires call s ≡ true)))
    → InitDone deletes call s (returned b, s)
unchanged deletes call s b e k = record {
  invoked = rw e;
  files = rw e;
  library_loaded = refl;
  result = k;
}

past_guards :
    (c : Crashpad) (deletes : Bytes → Bool) (cmdline : Option Bytes) (call : InitCall) (s : Api)
    (r : Result × Api)
    → s.library_loaded ≡ true
    → s.inited ≡ false
    → Ran deletes (pending call.config.on_crash (s.files (marker_file call))) (marker_file call) s r
    → InitDone deletes call s r
past_guards c deletes cmdline call s r e f k =
    let q : fires call s ≡ pending call.config.on_crash (s.files (marker_file call)) = rw (e, f) in
    record {
      invoked = rw q k.invoked;
      files = rw q k.files;
      library_loaded = k.library_loaded;
      result = inr (e, rw q k.result);
    }

-- If `init` ends, whatever the native side answered: the callback ran once if this was a first
-- call on a loaded library with a callback and a marker file, and else not at all; the marker file
-- was deleted, as far as that is possible, exactly in that case; and `init` returned false on a
-- library that is not loaded, and else the flag `inited` that it leaves, unless the callback ran
-- and threw.
pub init-InitDone :
    (c : Crashpad) (deletes : Bytes → Bool) (cmdline : Option Bytes) (call : InitCall) (s : Api)
    (r : Result × Api)
    → init c deletes cmdline call s ≡ some r
    → InitDone deletes call s r
unfolding init
init-InitDone c deletes cmdline call s r h = elim (Bool-cases s.library_loaded) [
  | inr e ↦
      subst (InitDone deletes call s) (some_cancel (ground (arith, e, h)))
        (unchanged deletes call s false (rw e) (inl (e, refl, refl)))
  | inl e ↦ elim (Bool-cases s.inited) [
    | inl f ↦
        subst (InitDone deletes call s) (some_cancel (ground (arith, e, f, h)))
          (unchanged deletes call s true (rw (e, f)) (inr (e, inl (rw f))))
    | inr f ↦ past_guards c deletes cmdline call s r e f (
        consume-Ran c deletes cmdline call call.config.on_crash (marker_file call) s r
          (ground (arith, e, f, h)))
  ]
]

flags_of_true :
    (deletes : Bytes → Bool) (call : InitCall) (s t : Api)
    → InitDone deletes call s (returned true, t)
    → (t.library_loaded ≡ true) × (t.inited ≡ true)
flags_of_true deletes call s t h = ground (arith, h.result, h.library_loaded)

init_of_flags :
    (c : Crashpad) (deletes : Bytes → Bool) (cmdline : Option Bytes) (call : InitCall) (t : Api)
    → t.library_loaded ≡ true
    → t.inited ≡ true
    → init c deletes cmdline call t ≡ some (returned true, t)
unfolding init
init_of_flags c deletes cmdline call t e f = ground (arith, e, f)

-- After a call that returned true every later call, with any arguments, returns true at once and
-- leaves the state as it is: no callback, no deletion and no second native initialisation.
pub init_idempotent :
    (c c' : Crashpad) (deletes deletes' : Bytes → Bool) (cmdline cmdline' : Option Bytes)
    (call call' : InitCall) (s t : Api)
    → init c deletes cmdline call s ≡ some (returned true, t)
    → init c' deletes' cmdline' call' t ≡ some (returned true, t)
init_idempotent c c' deletes deletes' cmdline cmdline' call call' s t h =
    let (e, f) =
      flags_of_true deletes call s t
        (init-InitDone c deletes cmdline call s (returned true, t) h) in
    init_of_flags c' deletes' cmdline' call' t e f
