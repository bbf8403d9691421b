-- ===== src/Api/Quiet.antt =====
-- A process without a callback: its crash leaves no marker.
use crashkit.Prelude.{
  ◌≡◌, refl, ap, ◌∙◌, Bool, true, false, Option, none, some, [], ◌∷◌, arith, ◌==◌, get_or,
}
use crashkit.Prelude.Bytes.{Bytes, until_nul}
use crashkit.Process.{get_process_name}
use crashkit.Bridge.{Crashpad, Bridge}
use crashkit.Bridge.Initialize.{initialize_crashpad}
use crashkit.Bridge.Initialize.Outcome.{initialize_crashpad-Ends}
use crashkit.Bridge.Marker.{
  IsMarkerPath, set_marker_path, set_marker_path-registers, set_marker_path_lem,
  first_chance_handler,
}
use crashkit.Api.{Api, InitCall, returned, marker_file, marker_path, jstring, native_args, init}
use crashkit.Api.Session.{on_signal}
use crashkit.Api.Report.{init_ran}

-- Without a callback the registered path is empty.
registered_nothing :
    (c : Crashpad) (cmdline : Option Bytes) (call : InitCall) (b b' : Bridge)
    → initialize_crashpad c (native_args call) cmdline b ≡ some (true, b')
    → call.config.on_crash ≡ none
    → IsMarkerPath b.crash_marker_path
    → until_nul b'.crash_marker_path ≡ []
unfolding native_args
registered_nothing c cmdline call b b' h e w =
    let (start, p, k) = initialize_crashpad-Ends c (native_args call) cmdline b (true, b') h in
    let s' : Bridge = record b { names = (get_process_name cmdline b.names).1 } in
    let q : (native_args call).marker_path ≡ jstring [] =
      ap (λ cb. jstring (marker_path cb (marker_file call))) e in
    let (first, taken) = set_marker_path-registers [] s' (omega arith) in
    let l = (set_marker_path_lem (jstring []) s' tt w).0 in
    ap until_nul k.marker
    ∙ ap (λ j. until_nul (set_marker_path j s').crash_marker_path) q
    ∙ l
    ∙ taken

blank_byte : (p : Bytes) → until_nul p ≡ [] → (get_or p 0 0 == 0) ≡ true
unfolding until_nul
blank_byte [] h = refl
blank_byte (b ∷ p) h = ground (arith, h)

unmarked :
    (opens : Bytes → Bool) (t : Api)
    → until_nul t.bridge.crash_marker_path ≡ []
    → on_signal opens t ≡ t.files
unfolding on_signal first_chance_handler
unmarked opens t h = ground (arith, blank_byte t.bridge.crash_marker_path h)

-- After a first `init` without a callback that returned true, a signal leaves the files as they
-- are, if the marker buffer held a C string before.
pub no_callback_no_marker :
    (c : Crashpad) (deletes opens : Bytes → Bool) (cmdline : Option Bytes) (call : InitCall)
    (s t : Api)
    → s.inited ≡ false
    → IsMarkerPath s.bridge.crash_marker_path
    → init c deletes cmdline call s ≡ some (returned true, t)
    → call.config.on_crash ≡ none
    → on_signal opens t ≡ t.files
no_callback_no_marker c deletes opens cmdline call s t n w h e = unmarked opens t (
    registered_nothing c cmdline call s.bridge t.bridge (init_ran c deletes cmdline call s t n h) e
      w)
