-- ===== src/Api/Report.antt =====
-- The way of a crash from the process that crashes to the callback in the next process.
use crashkit.Prelude.{
  zero, suc, ◌<◌, ◌≡◌, ◌≢◌, refl, sym, ap, ◌∙◌, subst, Bool, true, false, not, Option, none, some,
  [], ◌∷◌, arith, ◌==◌, get_or, length, inl, inr, Bool-cases, length-append, bind-eq-some,
  some_cancel,
}
use crashkit.Prelude.Bytes.{Bytes, NulFree, until_nul, codes, =b_refl}
use crashkit.Process.{get_process_name}
use crashkit.Bridge.{CrashpadInfo, Crashpad, Bridge, marker_size}
use crashkit.Bridge.Initialize.{initialize_crashpad}
use crashkit.Bridge.Initialize.Outcome.{initialize_crashpad-Ends}
use crashkit.Bridge.Marker.{
  Files, IsMarkerPath, set_marker_path, set_marker_path-registers, set_marker_path_lem,
  first_chance_handler,
}
use crashkit.Api.{
  Api, Callback, returns, throws, InitCall, Result, returned, threw, marker_file, marker_path,
  jstring, native_args, run_catching, initialize, consume, init,
}
use crashkit.Api.Init.{init_total}
use crashkit.Api.Guards.{fires, init-InitDone}
use crashkit.Api.Session.{on_signal, start_process}

-- Both components of a native call that ended in success.
caught :
    (linked : Bool) (native : Option (Bool × Bridge)) (b b' : Bridge)
    → run_catching linked native b ≡ some (true, b')
    → native ≡ some (true, b')
caught true native b b' h = h
caught false native b b' h = cc

returned_cancel : {a b : Bool} → returned a ≡ returned b → a ≡ b
returned_cancel h = cc

initialize_ran :
    (c : Crashpad) (cmdline : Option Bytes) (call : InitCall) (s t : Api)
    → initialize c cmdline call s ≡ some (returned true, t)
    → initialize_crashpad c (native_args call) cmdline s.bridge ≡ some (true, t.bridge)
unfolding initialize
initialize_ran c cmdline call s t h =
    let (q, f, g) =
      bind-eq-some
        (run_catching s.linked (initialize_crashpad c (native_args call) cmdline s.bridge) s.bridge)
        _ h in
    let k = some_cancel g in
    let e0 : q.0 ≡ true = returned_cancel (ap (λ r. r.0) k) in
    let e1 : q.1 ≡ t.bridge = ap (λ r. r.1.bridge) k in
    let e : q ≡ (true, t.bridge) = cc in caught s.linked _ s.bridge t.bridge (f ∙ ap some e)

consume_native :
    (c : Crashpad) (deletes : Bytes → Bool) (cmdline : Option Bytes) (call : InitCall)
    (cb : Option Callback) (path : Bytes) (s t : Api)
    → consume deletes cb path s (initialize c cmdline call) ≡ some (returned true, t)
    → initialize_crashpad c (native_args call) cmdline s.bridge ≡ some (true, t.bridge)
unfolding consume
consume_native c deletes cmdline call none path s t h = initialize_ran c cmdline call s t h
consume_native c deletes cmdline call (some returns) path s t h = elim (Bool-cases (s.files path)) [
  | inl e ↦ initialize_ran c cmdline call _ t (rw e at h)
  | inr e ↦ initialize_ran c cmdline call s t (rw e at h)
]
consume_native c deletes cmdline call (some throws) path s t h = elim (Bool-cases (s.files path)) [
  | inl e ↦ no_throw (rw e at h)
  | inr e ↦ initialize_ran c cmdline call s t (rw e at h)
]
  where
    no_throw :
        {x : Api}
        → ◌≡◌ {A = Option (Result × Api)} (some (threw, x)) (some (returned true, t))
        → initialize_crashpad c (native_args call) cmdline s.bridge ≡ some (true, t.bridge)
    no_throw k = cc

not_returned :
    {s t : Api} {A : Type 0}
    → ◌≡◌ {A = Option (Result × Api)} (some (returned false, s)) (some (returned true, t))
    → A
not_returned h = cc

-- A first `init` that returned true has run the native initialisation, and that succeeded.
pub init_ran :
    (c : Crashpad) (deletes : Bytes → Bool) (cmdline : Option Bytes) (call : InitCall) (s t : Api)
    → s.inited ≡ false
    → init c deletes cmdline call s ≡ some (returned true, t)
    → initialize_crashpad c (native_args call) cmdline s.bridge ≡ some (true, t.bridge)
unfolding init
init_ran c deletes cmdline call s t f h = elim (Bool-cases s.library_loaded) [
  | inl e ↦
      consume_native c deletes cmdline call call.config.on_crash (marker_file call) s t
        (ground (arith, e, f, h))
  | inr e ↦ not_returned {s = s} {t = t} (ground (arith, e, h))
]

-- The marker path is registered by a native initialisation that succeeded.
registered :
    (c : Crashpad) (cmdline : Option Bytes) (call : InitCall) (cb : Callback) (b b' : Bridge)
    → initialize_crashpad c (native_args call) cmdline b ≡ some (true, b')
    → call.config.on_crash ≡ some cb
    → NulFree (marker_file call)
    → length (marker_file call) < marker_size
    → IsMarkerPath b.crash_marker_path
    → (until_nul b'.crash_marker_path ≡ marker_file call) × (b'.first_chance ≡ true)
unfolding native_args
registered c cmdline call cb b b' h e free short w =
    let (start, p, k) = initialize_crashpad-Ends c (native_args call) cmdline b (true, b') h in
    let s' : Bridge = record b { names = (get_process_name cmdline b.names).1 } in
    let q : (native_args call).marker_path ≡ jstring (marker_file call) =
      ap (λ cb. jstring (marker_path cb (marker_file call))) e in
    let (first, taken) = set_marker_path-registers (marker_file call) s' short in
    let l = (set_marker_path_lem (jstring (marker_file call)) s' free w).0 in
    (
      ap until_nul k.marker
          ∙ ap (λ j. until_nul (set_marker_path j s').crash_marker_path) q
          ∙ l
          ∙ taken,
      k.first_chance ∙ ap (λ j. (set_marker_path j s').first_chance) q ∙ first,
    )

first_byte : (p : Bytes) → length (until_nul p) ≢ 0 → not (get_or p 0 0 == 0) ≡ true
unfolding until_nul
first_byte [] h = elim (h refl) [ ]
first_byte (zero ∷ p) h = elim (h refl) [ ]
first_byte (suc c ∷ p) h = ground arith

handler_marks :
    (opens : Bytes → Bool) (path : Bytes) (b : Bridge) (files : Files)
    → until_nul b.crash_marker_path ≡ path
    → length path ≢ 0
    → opens path ≡ true
    → (first_chance_handler opens b files).1 path ≡ true
unfolding first_chance_handler
handler_marks opens path b files e n o =
    let z = first_byte b.crash_marker_path (subst (λ p. length p ≢ 0) (sym e) n) in
    rw (z, e, o, =b_refl path) refl

-- A crash with a registered marker leaves the file there.
marked :
    (opens : Bytes → Bool) (path : Bytes) (t : Api)
    → until_nul t.bridge.crash_marker_path ≡ path
    → t.bridge.first_chance ≡ true
    → length path ≢ 0
    → opens path ≡ true
    → on_signal opens t path ≡ true
unfolding on_signal
marked opens path t e f n o = ground (arith, f, handler_marks opens path t.bridge t.files e n o)

reported :
    (c : Crashpad) (deletes : Bytes → Bool) (cmdline : Option Bytes) (call : InitCall) (u : Api)
    (cb : Callback) (r : Result × Api)
    → u.library_loaded ≡ true
    → u.inited ≡ false
    → call.config.on_crash ≡ some cb
    → u.files (marker_file call) ≡ true
    → deletes (marker_file call) ≡ true
    → init c deletes cmdline call u ≡ some r
    → (r.1.invoked ≡ suc u.invoked) × (r.1.files (marker_file call) ≡ false)
reported c deletes cmdline call u cb r e f g there d h =
    let k = init-InitDone c deletes cmdline call u r h in
    let q : fires call u ≡ true = rw (e, f, g) there in
    (
      rw q at k.invoked,
      ap (λ files. files (marker_file call)) (rw q at k.files)
          ∙ rw (d, =b_refl (marker_file call)) refl,
    )

-- After a first `init` with a callback that returned true, a signal leaves the marker file; the
-- first `init` of the next process, if it has a callback, ends with the callback run once more and
-- the marker gone, whatever the client library answers. The conditions: the marker path is a C
-- string shorter than its buffer, the file can be created and deleted, the buffer held a C string
-- before, and the second process has the library loaded and the same files directory.
pub crash_reported :
    (c c' : Crashpad) (deletes opens : Bytes → Bool) (cmdline cmdline' : Option Bytes)
    (call call' : InitCall) (cb cb' : Callback) (info : CrashpadInfo) (linked : Bool) (s t : Api)
    → s.inited ≡ false
    → IsMarkerPath s.bridge.crash_marker_path
    → init c deletes cmdline call s ≡ some (returned true, t)
    → call.config.on_crash ≡ some cb
    → call'.config.on_crash ≡ some cb'
    → marker_file call' ≡ marker_file call
    → NulFree (marker_file call)
    → length (marker_file call) < marker_size
    → opens (marker_file call) ≡ true
    → deletes (marker_file call) ≡ true
    → let u = start_process info true linked (record t { files = on_signal opens t }) in
      (r : Result × Api) × (init c' deletes cmdline' call' u ≡ some r)
      × (r.1.invoked ≡ suc t.invoked)
      × (r.1.files (marker_file call) ≡ false)
crash_reported c c' deletes opens cmdline cmdline' call call' cb cb' info linked s t n w h e e' same
      free short o d =
    let u = start_process info true linked (record t { files = on_signal opens t }) in
    let (path, first) =
      registered c cmdline call cb s.bridge t.bridge (init_ran c deletes cmdline call s t n h) e
        free short w in
    let there =
      marked opens (marker_file call) t path first
        (omega (arith, length-append call.files_dir (codes "/crashpad/crash_marker"))) o in
    let (r, k) = init_total c' deletes cmdline' call' u in
    let (i, gone) =
      reported c' deletes cmdline' call' u cb' r refl refl e'
        (subst (λ m. u.files m ≡ true) (sym same) there)
        (subst (λ m. deletes m ≡ true) (sym same) d) k in
    (r, k, i, subst (λ m. r.1.files m ≡ false) same gone)
