-- ===== src/Bridge/Tests.antt =====
-- Tests and instances for the bridge.
use crashkit.Prelude.{
  ◌≡◌, ◌||◌, refl, Bool, true, false, Option, none, some, List, [], ◌∷◌, arith, if◌then◌else◌, take,
}
use crashkit.Prelude.Bytes.{Bytes, codes, NulFree, is_nul_free→NulFree, ◌=b◌, until_nul, bytes_lt}
use crashkit.StdMap.{StdMap, put, lookup, keys, elem}
use crashkit.Dictionary.{new}
use crashkit.Dictionary.Laws.{has_room}
use crashkit.Dictionary.Entries.{IsKey}
use crashkit.Bridge.{
  JString, text, null_ref, Crashpad, CrashpadInfo, StartCall, Bridge, InitArgs, unset, loaded,
  key_size, get_or_unknown, required_annotations, merge_annotations, build_arguments, passthrough,
  value_size, num_entries,
}
use crashkit.Bridge.Annotations.{or_else, given, required}
use crashkit.Bridge.Arguments.{allows, texts}
use crashkit.Bridge.Marker.{IsMarkerPath, kept, set_marker_path, set_marker_path_lem}
use crashkit.Bridge.Initialize.{initialize_crashpad, prepare, open_database}
use crashkit.Bridge.Initialize.Outcome.{IsKotlinArgs, initialize_crashpad_total, prepare-allows}
use crashkit.Bridge.Dynamic.{
  IsBridge, annotation_of, native_set_annotation, initialize_crashpad-IsBridge, annotation_of-set,
}

abbrev accepting : Crashpad
accepting = record {
  initialize_database = λ _. true;
  has_settings = true;
  start_handler = λ _. true;
  has_crashpad_info = true;
}

abbrev jstring : Bytes → JString
jstring s = text (some s)

abbrev args : InitArgs
args = record {
  app_data_dir = jstring (codes "/data");
  lib_dir = jstring (codes "/lib/crashpad_handler.so");
  platform = jstring (codes "android");
  version = jstring (codes "5.1");
  os_version = null_ref;
  upload_url = null_ref;
  uploads_enabled = false;
  no_rate_limit = true;
  annotation_keys = jstring (codes "channel") ∷ jstring (codes "version") ∷ [];
  annotation_values = jstring (codes "beta") ∷ jstring (codes "6") ∷ [];
  dynamic_annotation_keys = jstring (codes "tab") ∷ [];
  marker_path = jstring (codes "/data/crash_marker");
}

args-IsKotlinArgs : IsKotlinArgs args
args-IsKotlinArgs = record {
  keys_text = (tt, (tt, tt));
  values_text = (tt, (tt, tt));
  paired = omega arith;
  dynamic_text = (tt, tt);
}

abbrev info : CrashpadInfo
info = record {
  gather_indirectly_referenced_memory = unset;
  indirectly_referenced_memory_cap = 0;
  simple_annotations = none;
  crashpad_handler_behavior = unset;
  system_crash_reporter_forwarding = unset;
  has_extra_memory_ranges = false;
  has_annotations_list = false;
}

abbrev fresh : Bridge
fresh = loaded info

abbrev cmdline : Option Bytes
cmdline = some (codes "app:web")

abbrev state_of : Option (Bool × Bridge) → Bridge
state_of none = fresh
state_of (some r) = r.1

abbrev started : Bridge
started = state_of (initialize_crashpad accepting args cmdline fresh)

started_lem : initialize_crashpad accepting args cmdline fresh ≡ some (true, started)
unfolding initialize_crashpad prepare open_database merge_annotations build_arguments
started_lem = refl

abbrev map_of : Option StdMap → StdMap
map_of none = []
map_of (some m) = m

abbrev base : StdMap
base = required_annotations (codes "web") (codes "android") (codes "5.1") (codes "unknown")

abbrev merged : StdMap
merged = map_of (merge_annotations args.annotation_keys args.annotation_values base)

merged_lem : merge_annotations args.annotation_keys args.annotation_values base ≡ some merged
unfolding merge_annotations
merged_lem = refl

the_caller_wins : lookup (codes "version") merged ≡ some (codes "6")
unfolding merge_annotations required_annotations lookup put ◌=b◌ bytes_lt
the_caller_wins = refl

abbrev list_of : Option (List Bytes) → List Bytes
list_of none = []
list_of (some arguments) = arguments

abbrev arguments : List Bytes
arguments = list_of (build_arguments true merged args.dynamic_annotation_keys)

arguments_lem : build_arguments true merged args.dynamic_annotation_keys ≡ some arguments
unfolding build_arguments
arguments_lem = refl

initialize_crashpad_total_example :
    (r : Bool × Bridge) × (initialize_crashpad accepting args cmdline fresh ≡ some r)
initialize_crashpad_total_example =
    initialize_crashpad_total accepting args cmdline fresh args-IsKotlinArgs

abbrev no_call : StartCall
no_call = record {
  handler = [];
  database = [];
  metrics_dir = [];
  url = [];
  annotations = [];
  arguments = [];
  restartable = false;
  asynchronous_start = false;
  attachments = [];
}

abbrev call_of : Option StartCall → StartCall
call_of none = no_call
call_of (some call) = call

abbrev prepared : StartCall
prepared = call_of (prepare args (codes "web"))

prepared_lem : prepare args (codes "web") ≡ some prepared
unfolding prepare merge_annotations build_arguments
prepared_lem = refl

prepare-allows_example :
    (lookup (codes "tab") prepared.annotations
      ≡ or_else (given (codes "tab") args.annotation_keys args.annotation_values) (
          required
            (codes "web")
            (get_or_unknown args.platform)
            (get_or_unknown args.version)
            (get_or_unknown args.os_version)
            (codes "tab")))
    × (allows prepared.arguments (codes "tab")
        ≡ (elem (codes "tab") (keys prepared.annotations) || elem (codes "tab") passthrough)
          || elem (codes "tab") (texts args.dynamic_annotation_keys))
prepare-allows_example = prepare-allows args (codes "web") (codes "tab") prepared prepared_lem

path-NulFree : NulFree (codes "/data/crash_marker")
path-NulFree = is_nul_free→NulFree (codes "/data/crash_marker") refl

fresh-IsMarkerPath : IsMarkerPath fresh.crash_marker_path
unfolding until_nul
fresh-IsMarkerPath = record { size = refl; ends = omega arith }

fresh-IsBridge : IsBridge fresh
fresh-IsBridge = record { marker = fresh-IsMarkerPath; dynamic = tt }

set_marker_path_example :
    (until_nul (set_marker_path args.marker_path fresh).crash_marker_path
      ≡ kept args.marker_path (until_nul fresh.crash_marker_path))
    × IsMarkerPath (set_marker_path args.marker_path fresh).crash_marker_path
set_marker_path_example = set_marker_path_lem args.marker_path fresh path-NulFree fresh-IsMarkerPath

Started-IsBridge : IsBridge started
Started-IsBridge =
    initialize_crashpad-IsBridge accepting args cmdline fresh (true, started) started_lem
      path-NulFree fresh-IsBridge

abbrev bridge_of : Option Bridge → Bridge
bridge_of none = fresh
bridge_of (some s) = s

abbrev annotated : Bridge
annotated = bridge_of (native_set_annotation (jstring (codes "tab")) (jstring (codes "3")) started)

annotated_lem :
    native_set_annotation (jstring (codes "tab")) (jstring (codes "3")) started ≡ some annotated
unfolding initialize_crashpad prepare open_database merge_annotations build_arguments
    native_set_annotation
annotated_lem = refl

tab-IsKey : IsKey key_size (codes "tab")
tab-IsKey = record {
  nonempty = ground arith;
  nul_free = is_nul_free→NulFree (codes "tab") refl;
  fits = omega arith;
}

started_dynamic : started.dynamic_annotations ≡ some (new key_size value_size num_entries)
unfolding initialize_crashpad prepare open_database merge_annotations build_arguments
started_dynamic = refl

annotation_of-set_example : annotation_of annotated (codes "tab") ≡ (
    if codes "tab" =b codes "tab"
    then (if has_room (codes "tab") (new key_size value_size num_entries)
        then some (take 255 (codes "3"))
        else none)
    else annotation_of started (codes "tab"))
annotation_of-set_example =
    annotation_of-set (codes "tab") (codes "tab") (codes "3") started annotated
      (new key_size value_size num_entries) started_dynamic annotated_lem Started-IsBridge tab-IsKey
      tab-IsKey (is_nul_free→NulFree (codes "3") refl)
