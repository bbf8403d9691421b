-- ===== src/Bridge/Initialize.antt =====
-- `initializeCrashpad` of native-bridge.cpp.
pub mod Outcome
use crashkit.Prelude.{
  ℕ, suc, ◌+◌, ◌<◌, Bool, true, false, not, Option, none, some, List, [], ◌∷◌, ◌++◌, ltb,
  if◌then◌else◌, length, drop, ◌>>=◌,
}
use crashkit.Prelude.Bytes.{Bytes, codes}
use crashkit.Process.{get_process_name}
use crashkit.StdMap.{StdMap}
use crashkit.Dictionary
use crashkit.Bridge.Marker.{set_marker_path}
use crashkit.Bridge.{
  JString, null_ref, text, get_or_unknown, get_url, disabled,
  set_gather_indirectly_referenced_memory, set_simple_annotations, StartCall, Crashpad, Bridge,
  InitArgs, marker_size, key_size, value_size, num_entries, required_annotations, merge_annotations,
  build_arguments,
}

-- The paths, the URL, the annotations and the arguments, in a call that is not yet made.
unfoldable pub make_call : InitArgs → StdMap → List Bytes → StartCall
make_call a annotations arguments =
    let data_dir = get_or_unknown a.app_data_dir in
    record {
      handler = get_or_unknown a.lib_dir;
      database = data_dir ++ codes "/crashpad";
      metrics_dir = data_dir ++ codes "/crashpad/metrics";
      url = get_url a.upload_url;
      annotations = annotations;
      arguments = arguments;
      restartable = false;
      asynchronous_start = false;
      attachments = [];
    }

abbrev pub required_of : InitArgs → Bytes → StdMap
required_of a process =
    required_annotations process (get_or_unknown a.platform) (get_or_unknown a.version)
      (get_or_unknown a.os_version)

unfoldable pub prepare : InitArgs → Bytes → Option StartCall
prepare a process = do
  annotations ← merge_annotations a.annotation_keys a.annotation_values (required_of a process)
  arguments ← build_arguments a.no_rate_limit annotations a.dynamic_annotation_keys
  some (make_call a annotations arguments)

-- With a `CrashpadInfo`: no indirectly referenced memory, and a new dictionary, registered by its
-- address. Each `new` takes an address that no dictionary had before, as none is ever deleted.
unfoldable pub configure_info : Crashpad → Bridge → Bridge
configure_info c s =
    if c.has_crashpad_info
    then record s {
      info =
          set_simple_annotations (some (suc s.dynamic_address))
            (set_gather_indirectly_referenced_memory disabled 0 s.info);
      dynamic_annotations = some (Dictionary.new key_size value_size num_entries);
      dynamic_address = suc s.dynamic_address;
    }
    else s

-- From `StartHandler` on.
unfoldable pub start : Crashpad → JString → StartCall → Bridge → Bool × Bridge
unfolding configure_info set_marker_path
start c marker_path call s =
    let tried = record s { started = s.started ++ call ∷ [] } in
    if not (c.start_handler call) then (false, tried) else (
      true,
      set_marker_path marker_path (configure_info c (record tried { client = some call })),
    )

-- From `CrashReportDatabase::Initialize` on.
unfoldable pub open_database : Crashpad → InitArgs → StartCall → Bridge → Bool × Bridge
unfolding start
open_database c a call s =
    if not (c.initialize_database call.database)
    then (false, s)
    else if not c.has_settings
    then (false, s)
    else start c a.marker_path call (record s { uploads_enabled = some a.uploads_enabled })

unfoldable pub initialize_crashpad :
    Crashpad → InitArgs → Option Bytes → Bridge → Option (Bool × Bridge)
initialize_crashpad c a cmdline s = do
  let named = get_process_name cmdline s.names
  call ← prepare a named.0
  some (open_database c a call (record s { names = named.1 }))
