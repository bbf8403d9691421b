-- ===== src/Handler/Tests.antt =====
-- Tests and instances for the handler.
mod Shown
use crashkit.Prelude.{
  ◌≡◌, ◌||◌, refl, Bool, true, false, Option, none, some, List, [], ◌∷◌, arith, if◌then◌else◌, take,
  drop,
}
use crashkit.Prelude.Bytes.{Bytes, codes, ◌=b◌, until_nul, is_nul_free→NulFree}
use crashkit.StdMap.{StdMap, lookup, keys, elem}
use crashkit.Dictionary.{get_value_for_key, set_key_value, new}
use crashkit.Dictionary.Entries.{IsKey}
use crashkit.Bridge.{
  JString, text, passthrough, build_arguments, merge_annotations, Crashpad, Bridge, InitArgs,
  StartCall, loaded, unset, key_size,
}
use crashkit.Bridge.Arguments.{texts}
use crashkit.Bridge.Initialize.{initialize_crashpad, prepare, open_database}
use crashkit.Bridge.Dynamic.{IsBridge, native_set_annotation, handler_reads}
use crashkit.Handler.{read_options, form_data, ModuleSnapshot, ProcessSnapshot, module_annotations}
use crashkit.Handler.Options.{IsGetopt}
use crashkit.Handler.Kept.{Keeps, build_arguments-Keeps}
use crashkit.Handler.Survives.{dynamic_annotation_survives}

-- A reader of options that knows this one option, in its full form.
abbrev getopt : Bytes → Option Bytes
getopt argument =
    if take 19 argument =b codes "--allow-annotation=" then some (drop 19 argument) else none

getopt-IsGetopt : IsGetopt getopt
unfolding ◌=b◌
getopt-IsGetopt = record { allowed = λ key. refl; rate = refl }

abbrev annotations : StdMap
annotations = (codes "platform", codes "android") ∷ (codes "version", codes "5.1") ∷ []

abbrev dynamic : List JString
dynamic = text (some (codes "tab")) ∷ []

abbrev list_of : Option (List Bytes) → List Bytes
list_of none = []
list_of (some arguments) = arguments

abbrev arguments : List Bytes
arguments = list_of (build_arguments true annotations dynamic)

arguments_lem : build_arguments true annotations dynamic ≡ some arguments
unfolding build_arguments
arguments_lem = refl

abbrev minidump_key : Bytes
minidump_key = codes "upload_file_minidump"

abbrev parameters : StdMap
parameters = (codes "guid", codes "1234") ∷ annotations

abbrev module_snapshot : ModuleSnapshot
module_snapshot = record {
  simple_map = (codes "tab", codes "3") ∷ (codes "variations", codes "x") ∷ [];
  annotation_objects = record { name = codes "gpu"; value = codes "y" } ∷ [];
}

abbrev process_snapshot : ProcessSnapshot
process_snapshot = record { annotations = parameters; modules = module_snapshot ∷ [] }

guid_is_dropped :
    lookup (codes "guid") (form_data minidump_key (read_options getopt [] arguments) parameters)
    ≡ none
unfolding form_data lookup read_options build_arguments ◌=b◌
guid_is_dropped = refl

build_arguments-Keeps_example :
    Keeps minidump_key
      (read_options getopt [] arguments)
      (codes "guid")
      ((elem (codes "guid") (keys annotations) || elem (codes "guid") passthrough)
        || elem (codes "guid") (texts dynamic))
      parameters
      process_snapshot
      module_snapshot
build_arguments-Keeps_example =
    build_arguments-Keeps getopt minidump_key true annotations dynamic arguments (codes "guid")
      parameters process_snapshot module_snapshot getopt-IsGetopt arguments_lem

abbrev jstring : Bytes → JString
jstring s = text (some s)

abbrev args : InitArgs
args = record {
  app_data_dir = jstring (codes "/data");
  lib_dir = jstring (codes "/lib/crashpad_handler.so");
  platform = jstring (codes "android");
  version = jstring (codes "5.1");
  os_version = jstring (codes "14");
  upload_url = jstring [];
  uploads_enabled = false;
  no_rate_limit = false;
  annotation_keys = [];
  annotation_values = [];
  dynamic_annotation_keys = dynamic;
  marker_path = jstring [];
}

abbrev accepting : Crashpad
accepting = record {
  initialize_database = λ _. true;
  has_settings = true;
  start_handler = λ _. true;
  has_crashpad_info = true;
}

abbrev fresh : Bridge
fresh = loaded (record {
  gather_indirectly_referenced_memory = unset;
  indirectly_referenced_memory_cap = 0;
  simple_annotations = none;
  crashpad_handler_behavior = unset;
  system_crash_reporter_forwarding = unset;
  has_extra_memory_ranges = false;
  has_annotations_list = false;
})

abbrev state_of : Option (Bool × Bridge) → Bridge
state_of none = fresh
state_of (some r) = r.1

abbrev started : Bridge
started = state_of (initialize_crashpad accepting args none fresh)

started_lem : initialize_crashpad accepting args none fresh ≡ some (true, started)
unfolding initialize_crashpad prepare open_database merge_annotations build_arguments
started_lem = refl

abbrev bridge_of : Option Bridge → Bridge
bridge_of none = fresh
bridge_of (some s) = s

abbrev annotated : Bridge
annotated = bridge_of (native_set_annotation (jstring (codes "tab")) (jstring (codes "3")) started)

annotated_lem :
    native_set_annotation (jstring (codes "tab")) (jstring (codes "3")) started ≡ some annotated
unfolding initialize_crashpad prepare open_database merge_annotations build_arguments
    native_set_annotation
annotated_lem = refl

snapshot_lem :
    lookup (codes "tab") module_snapshot.simple_map ≡ handler_reads annotated (codes "tab")
unfolding initialize_crashpad prepare open_database merge_annotations build_arguments
    native_set_annotation handler_reads get_value_for_key set_key_value new until_nul lookup ◌=b◌
snapshot_lem = refl

fresh-IsBridge : IsBridge fresh
unfolding until_nul
fresh-IsBridge = record { marker = record { size = refl; ends = omega arith }; dynamic = tt }

tab-IsKey : IsKey key_size (codes "tab")
tab-IsKey = record {
  nonempty = ground arith;
  nul_free = is_nul_free→NulFree (codes "tab") refl;
  fits = omega arith;
}

tab_is_dynamic : elem (codes "tab") (texts args.dynamic_annotation_keys) ≡ true
unfolding ◌=b◌
tab_is_dynamic = refl

dynamic_annotation_survives_example :
    (call : StartCall) × (started.client ≡ some call)
    × (lookup
          (codes "tab")
          (module_annotations
            (some (read_options getopt [] call.arguments))
            module_snapshot).simple_map
        ≡ some (take 255 (codes "3")))
dynamic_annotation_survives_example =
    dynamic_annotation_survives getopt accepting args none fresh started annotated (codes "tab")
      (codes "3") module_snapshot getopt-IsGetopt started_lem refl fresh-IsBridge tt annotated_lem
      tab-IsKey (is_nul_free→NulFree (codes "3") refl) tab_is_dynamic snapshot_lem
