-- ===== src/Api/Tests.antt =====
-- Tests and instances for the Kotlin object.
use crashkit.Prelude.{◌≡◌, refl, Bool, true, false, Option, none, some, [], ◌∷◌, arith, suc}
use crashkit.Prelude.Bytes.{Bytes, codes, NulFree, is_nul_free→NulFree, until_nul}
use crashkit.Bridge.Initialize.{initialize_crashpad, prepare, open_database}
use crashkit.Bridge.{merge_annotations, build_arguments, Crashpad, CrashpadInfo, unset, loaded}
use crashkit.Bridge.Marker.{IsMarkerPath}
use crashkit.Api.{
  Api, InitCall, Result, returned, returns, marker_file, native_args, consume, initialize, init,
}
use crashkit.Api.Init.{init_total}
use crashkit.Api.Guards.{InitDone, init-InitDone}
use crashkit.Api.Session.{
  App, IsAccounted, Step, Reach, Reach-IsAccounted, on_signal, start_process,
}
use crashkit.Api.Report.{crash_reported}
use crashkit.Api.Quiet.{no_callback_no_marker}

-- A client library that accepts everything.
abbrev accepting : Crashpad
accepting = record {
  initialize_database = λ _. true;
  has_settings = true;
  start_handler = λ _. true;
  has_crashpad_info = true;
}

abbrev call : InitCall
call = record {
  files_dir = codes "/data";
  native_library_dir = codes "/lib";
  platform = codes "android";
  version = codes "5.1";
  os_version = codes "14";
  extra_annotations = (codes "channel", codes "beta") ∷ [];
  dynamic_annotation_keys = codes "tab" ∷ [];
  config = record {
    upload_url = codes "https://example.com";
    uploads_enabled = true;
    no_rate_limit = false;
    on_crash = some returns;
  };
}

abbrev info : CrashpadInfo
info = record {
  gather_indirectly_referenced_memory = unset;
  indirectly_referenced_memory_cap = 0;
  simple_annotations = none;
  crashpad_handler_behavior = unset;
  system_crash_reporter_forwarding = unset;
  has_extra_memory_ranges = false;
  has_annotations_list = false;
}

abbrev all : Bytes → Bool
all path = true

abbrev cmdline : Option Bytes
cmdline = some (codes "app:web")

-- The object in a process that was just started, with no files.
abbrev fresh : Api
fresh = record {
  inited = false;
  library_loaded = true;
  linked = true;
  files = λ _. false;
  invoked = 0;
  bridge = loaded info;
}

abbrev state_of : Option (Result × Api) → Api
state_of none = fresh
state_of (some r) = r.1

abbrev initialised : Api
initialised = state_of (init accepting all cmdline call fresh)

initialised_lem : init accepting all cmdline call fresh ≡ some (returned true, initialised)
unfolding init consume initialize initialize_crashpad prepare open_database merge_annotations
    build_arguments native_args
initialised_lem = refl

-- In the first process there is no marker, and the callback does not run.
first_init_is_quiet : initialised.invoked ≡ 0
unfolding init consume initialize initialize_crashpad prepare open_database merge_annotations
    build_arguments native_args
first_init_is_quiet = refl

path-NulFree : NulFree (marker_file call)
path-NulFree = is_nul_free→NulFree (marker_file call) refl

fresh-IsMarkerPath : IsMarkerPath fresh.bridge.crash_marker_path
unfolding until_nul
fresh-IsMarkerPath = record { size = refl; ends = omega arith }

crash_reported_example :
    let u =
      start_process info true true (record initialised { files = on_signal all initialised }) in
    (r : Result × Api) × (init accepting all cmdline call u ≡ some r)
    × (r.1.invoked ≡ suc initialised.invoked)
    × (r.1.files (marker_file call) ≡ false)
crash_reported_example =
    crash_reported accepting accepting all all cmdline cmdline call call returns returns info true
      fresh initialised refl fresh-IsMarkerPath initialised_lem refl refl refl path-NulFree
      (omega arith) refl refl

abbrev app : App
app = record { api = fresh; alive = true; crashes = 0 }

abbrev crashed : App
crashed = record {
  api = record initialised { files = on_signal all initialised };
  alive = false;
  crashes = 1;
}

app-IsAccounted : IsAccounted (marker_file call) app
app-IsAccounted = record { covered = omega arith }

to_crashed : Reach (marker_file call) all app crashed
to_crashed =
    Reach.next
      (Reach.next Reach.here (
        Step.initialises app accepting cmdline call (returned true, initialised) refl refl
          initialised_lem))
      (Step.signals (record app { api = initialised }) all refl)

Reach-IsAccounted_example : IsAccounted (marker_file call) crashed
Reach-IsAccounted_example =
    Reach-IsAccounted (marker_file call) all {a = app} {b = crashed} refl app-IsAccounted to_crashed

init_total_example : (r : Result × Api) × (init accepting all none call fresh ≡ some r)
init_total_example = init_total accepting all none call fresh

init-InitDone_example : InitDone all call fresh (returned true, initialised)
init-InitDone_example =
    init-InitDone accepting all cmdline call fresh (returned true, initialised) initialised_lem

abbrev quiet_call : InitCall
quiet_call = record call { config = record call.config { on_crash = none } }

abbrev quiet : Api
quiet = state_of (init accepting all cmdline quiet_call fresh)

quiet_lem : init accepting all cmdline quiet_call fresh ≡ some (returned true, quiet)
unfolding init consume initialize initialize_crashpad prepare open_database merge_annotations
    build_arguments native_args
quiet_lem = refl

no_callback_no_marker_example : on_signal all quiet ≡ quiet.files
no_callback_no_marker_example =
    no_callback_no_marker accepting all all cmdline quiet_call fresh quiet refl fresh-IsMarkerPath
      quiet_lem refl
