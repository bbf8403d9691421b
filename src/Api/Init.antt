-- ===== src/Api/Init.antt =====
-- `init` on every branch.
use crashkit.Prelude.{
  suc, ◌+◌, ◌≡◌, ◌⊎◌, refl, ◌∙◌, subst, Bool, true, false, Option, none, some, List, [], ◌∷◌, map,
  arith, if◌then◌else◌, All, length-map, inl, inr, Bool-cases, bind-eq-some, some_cancel,
}
use crashkit.Prelude.Bytes.{Bytes}
use crashkit.Bridge.{Crashpad, Bridge}
use crashkit.Bridge.Annotations.{IsText}
use crashkit.Bridge.Arguments.{NotNull}
use crashkit.Bridge.Initialize.{initialize_crashpad}
use crashkit.Bridge.Initialize.Outcome.{IsKotlinArgs, initialize_crashpad_total}
use crashkit.Api.{
  Callback, returns, throws, InitCall, Api, Result, returned, threw, marker_file, delete, jstring,
  native_args, run_catching, initialize, consume, init,
}

All-IsText {ℓ} :
    {A : Type ℓ} (f : A → Bytes) (xs : List A) → All IsText (map (λ x. jstring (f x)) xs)
All-IsText f [] = tt
All-IsText f (x ∷ xs) = (tt, All-IsText f xs)

All-NotNull : (xs : List Bytes) → All NotNull (map jstring xs)
All-NotNull [] = tt
All-NotNull (x ∷ xs) = (tt, All-NotNull xs)

native_args-IsKotlinArgs : (call : InitCall) → IsKotlinArgs (native_args call)
unfolding native_args
native_args-IsKotlinArgs call = record {
  keys_text = All-IsText (λ e. e.0) call.extra_annotations;
  values_text = All-IsText (λ e. e.1) call.extra_annotations;
  paired = omega (
    arith,
    length-map call.extra_annotations (λ e. jstring e.0),
    length-map call.extra_annotations (λ e. jstring e.1),
  );
  dynamic_text = All-NotNull call.dynamic_annotation_keys;
}

run_catching_total :
    (linked : Bool) (native : Option (Bool × Bridge)) (b : Bridge)
    → ((r : Bool × Bridge) × (native ≡ some r))
    → (r : Bool × Bridge) × (run_catching linked native b ≡ some r)
run_catching_total true native b h = h
run_catching_total false native b h = ((false, b), refl)

initialize_total :
    (c : Crashpad) (cmdline : Option Bytes) (call : InitCall) (s : Api)
    → (r : Result × Api) × (initialize c cmdline call s ≡ some r)
unfolding initialize
initialize_total c cmdline call s =
    let (r, h) = run_catching_total s.linked _ s.bridge (
      initialize_crashpad_total c (native_args call) cmdline s.bridge
        (native_args-IsKotlinArgs call)) in
    ((returned r.0, record s { inited = r.0; bridge = r.1 }), rw h)

consume_total :
    (deletes : Bytes → Bool) (cb : Option Callback) (path : Bytes) (s : Api)
    (next : Api → Option (Result × Api))
    → ((t : Api) → (r : Result × Api) × (next t ≡ some r))
    → (r : Result × Api) × (consume deletes cb path s next ≡ some r)
unfolding consume
consume_total deletes none path s next h = h s
consume_total deletes (some returns) path s next h = elim (Bool-cases (s.files path)) [
  | inl e ↦ rw e (h _)
  | inr e ↦ rw e (h s)
]
consume_total deletes (some throws) path s next h = elim (Bool-cases (s.files path)) [
  | inl e ↦ rw e (_, refl)
  | inr e ↦ rw e (h s)
]

-- Whatever the arguments, the client library and the state, `init` ends: it returns or the callback
-- throws, and no native abort is reached. (Every Kotlin string can be read by the native side.)
pub init_total :
    (c : Crashpad) (deletes : Bytes → Bool) (cmdline : Option Bytes) (call : InitCall) (s : Api)
    → (r : Result × Api) × (init c deletes cmdline call s ≡ some r)
unfolding init
init_total c deletes cmdline call s = elim (Bool-cases s.library_loaded) [
  | inr e ↦ ((returned false, s), ground (arith, e))
  | inl e ↦ elim (Bool-cases s.inited) [
    | inl f ↦ ((returned true, s), ground (arith, e, f))
    | inr f ↦
        let (r, h) =
          consume_total deletes call.config.on_crash (marker_file call) s
            (initialize c cmdline call) (initialize_total c cmdline call) in
        (r, ground (arith, e, f, h))
  ]
]

-- What the native call leaves alone, and what `inited` becomes.
pub record Kept (s : Api) (r : Result × Api) : Type 0 where
  pub invoked : r.1.invoked ≡ s.invoked
  pub files : r.1.files ≡ s.files
  pub library_loaded : r.1.library_loaded ≡ s.library_loaded
  pub result : r.0 ≡ returned r.1.inited

pub initialize_keeps :
    (c : Crashpad) (cmdline : Option Bytes) (call : InitCall) (s : Api) (r : Result × Api)
    → initialize c cmdline call s ≡ some r
    → Kept s r
unfolding initialize
initialize_keeps c cmdline call s r h =
    let (q, f, g) =
      bind-eq-some
        (run_catching s.linked (initialize_crashpad c (native_args call) cmdline s.bridge) s.bridge)
        _ h in
    subst (Kept s) (some_cancel g)
      (record { invoked = refl; files = refl; library_loaded = refl; result = refl })

-- The state and the result after `init` went past its two guards.
pub record Ran (deletes : Bytes → Bool) (fired : Bool) (path : Bytes) (s : Api) (r : Result × Api)
    : Type 0 where
  pub invoked : r.1.invoked ≡ (if fired then suc s.invoked else s.invoked)
  pub files : r.1.files ≡ (if fired then delete deletes path s.files else s.files)
  pub library_loaded : r.1.library_loaded ≡ s.library_loaded
  pub result : (r.0 ≡ returned r.1.inited) ⊎ ((r.0 ≡ threw) × (fired ≡ true))

abbrev pub pending : Option Callback → Bool → Bool
pending none there = false
pending (some cb) there = there

pub consume-Ran :
    (c : Crashpad) (deletes : Bytes → Bool) (cmdline : Option Bytes) (call : InitCall)
    (cb : Option Callback) (path : Bytes) (s : Api) (r : Result × Api)
    → consume deletes cb path s (initialize c cmdline call) ≡ some r
    → Ran deletes (pending cb (s.files path)) path s r
unfolding consume
consume-Ran c deletes cmdline call none path s r h =
    let k = initialize_keeps c cmdline call s r h in
    record {
      invoked = k.invoked;
      files = k.files;
      library_loaded = k.library_loaded;
      result = inl k.result;
    }
consume-Ran c deletes cmdline call (some returns) path s r h = elim (Bool-cases (s.files path)) [
  | inl e ↦
      let s' : Api = record s { files = delete deletes path s.files; invoked = s.invoked + 1 } in
      let k = initialize_keeps c cmdline call s' r (rw e at h) in
      rw e (record {
        invoked = k.invoked ∙ omega arith;
        files = k.files;
        library_loaded = k.library_loaded;
        result = inl k.result;
      })
  | inr e ↦
      let k = initialize_keeps c cmdline call s r (rw e at h) in
      rw e (record {
        invoked = k.invoked;
        files = k.files;
        library_loaded = k.library_loaded;
        result = inl k.result;
      })
]
consume-Ran c deletes cmdline call (some throws) path s r h = elim (Bool-cases (s.files path)) [
  | inl e ↦ rw e (
      subst (Ran deletes true path s) (some_cancel (rw e at h)) (record {
        invoked = omega arith;
        files = refl;
        library_loaded = refl;
        result = inr (refl, refl);
      }))
  | inr e ↦
      let k = initialize_keeps c cmdline call s r (rw e at h) in
      rw e (record {
        invoked = k.invoked;
        files = k.files;
        library_loaded = k.library_loaded;
        result = inl k.result;
      })
]
