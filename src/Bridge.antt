-- ===== src/Bridge.antt =====
-- crashkit/src/main/cpp/native-bridge.cpp: the JNI functions of the library. The Java side's
-- strings, the crashpad client library and the file system are arguments; what the calls leave
-- behind is the record `Bridge`. `none` stands for undefined behaviour or a JNI abort.
pub mod Annotations
pub mod Arguments
pub mod Marker
pub mod Initialize
pub mod Dynamic
pub mod Crash
mod Tests
use crashkit.Prelude.{
  ℕ, zero, suc, ◌+◌, ◌-◌, ◌<◌, ◌≡◌, refl, Bool, true, false, not, Option, none, some, List, [], ◌∷◌,
  ◌++◌, map, ◌==◌, ltb, if◌then◌else◌, length, drop, get_or, replicate, ◌>>=◌,
}
use crashkit.Prelude.Bytes.{Bytes, codes, until_nul}
use crashkit.Process.{NameCache, no_name, get_process_name}
use crashkit.StdMap.{StdMap, put, keys}
use crashkit.Dictionary
use crashkit.Dictionary.{Entry}

-- A `jstring`: a null reference, or one for which `GetStringUTFChars` gives null or a C string.
pub data JString : Type 0 where
  null_ref : JString
  text : Option Bytes → JString

-- `GetStringUTFChars`, which aborts on a null reference.
abbrev pub get_string_utf_chars : JString → Option (Option Bytes)
get_string_utf_chars null_ref = none
get_string_utf_chars (text chars) = some chars

abbrev pub unknown : Bytes
unknown = codes "unknown"

abbrev pub or_unknown : Bytes → Bytes
or_unknown [] = unknown
or_unknown (c ∷ s) = c ∷ s

-- The lambda `getOrUnknown`.
unfoldable pub get_or_unknown : JString → Bytes
get_or_unknown null_ref = unknown
get_or_unknown (text none) = unknown
get_or_unknown (text (some chars)) = or_unknown chars

-- The upload URL: empty for a null reference or a null string.
unfoldable pub get_url : JString → Bytes
get_url null_ref = []
get_url (text none) = []
get_url (text (some chars)) = chars

-- `TriState` of crashpad's `CrashpadInfo`.
pub data TriState : Type 0 where
  unset enabled disabled : TriState

-- The fields of `CrashpadInfo::GetCrashpadInfo()` that have setters. The pointer to the dictionary of
-- simple annotations is an address, with `none` for a null pointer; of the other two pointers, which
-- the bridge never sets, the record only says whether they are null.
pub record CrashpadInfo : Type 0 where
  pub indirectly_referenced_memory_cap : ℕ
  pub crashpad_handler_behavior : TriState
  pub system_crash_reporter_forwarding : TriState
  pub gather_indirectly_referenced_memory : TriState
  pub has_extra_memory_ranges : Bool
  pub simple_annotations : Option ℕ
  pub has_annotations_list : Bool

abbrev pub set_extra_memory_ranges : Bool → CrashpadInfo → CrashpadInfo
set_extra_memory_ranges present info = record info { has_extra_memory_ranges = present }

abbrev pub set_annotations_list : Bool → CrashpadInfo → CrashpadInfo
set_annotations_list present info = record info { has_annotations_list = present }

abbrev pub set_crashpad_handler_behavior : TriState → CrashpadInfo → CrashpadInfo
set_crashpad_handler_behavior behavior info = record info { crashpad_handler_behavior = behavior }

abbrev pub set_system_crash_reporter_forwarding : TriState → CrashpadInfo → CrashpadInfo
set_system_crash_reporter_forwarding forwarding info = record info {
  system_crash_reporter_forwarding = forwarding;
}

-- The two setters that the bridge calls.
abbrev pub set_gather_indirectly_referenced_memory : TriState → ℕ → CrashpadInfo → CrashpadInfo
set_gather_indirectly_referenced_memory gather limit info = record info {
  gather_indirectly_referenced_memory = gather;
  indirectly_referenced_memory_cap = limit;
}

abbrev pub set_simple_annotations : Option ℕ → CrashpadInfo → CrashpadInfo
set_simple_annotations address info = record info { simple_annotations = address }

-- The arguments of `CrashpadClient::StartHandler`.
pub record StartCall : Type 0 where
  pub handler : Bytes
  pub database : Bytes
  pub metrics_dir : Bytes
  pub url : Bytes
  pub annotations : StdMap
  pub arguments : List Bytes
  pub restartable : Bool
  pub asynchronous_start : Bool
  pub attachments : List Bytes

-- The crashpad client library: what its calls answer.
pub record Crashpad : Type 0 where
  pub initialize_database : Bytes → Bool
  pub has_settings : Bool
  pub start_handler : StartCall → Bool
  pub has_crashpad_info : Bool

-- `sizeof(g_crash_marker_path)`
abbrev pub marker_size : ℕ
marker_size = 512

-- The globals of native-bridge.cpp and process.cpp, and what the calls of the crashpad library set:
-- the handlers started, the uploads setting, the info record, the first chance handler,
-- the dumps asked for. `g_dynamic_annotations` is two fields: the address it holds, 0 for a null
-- pointer, and the dictionary that stands there.
pub record Bridge : Type 0 where
  pub client : Option StartCall
  pub dynamic_annotations : Option (List Entry)
  pub dynamic_address : ℕ
  pub crash_marker_path : Bytes
  pub names : NameCache
  pub started : List StartCall
  pub uploads_enabled : Option Bool
  pub info : CrashpadInfo
  pub first_chance : Bool
  pub dumps : ℕ

-- The globals when the library is loaded, around the info record that crashpad then has.
abbrev pub loaded : CrashpadInfo → Bridge
loaded info = record {
  client = none;
  dynamic_annotations = none;
  dynamic_address = 0;
  crash_marker_path = replicate marker_size 0;
  names = no_name;
  started = [];
  uploads_enabled = none;
  info = info;
  first_chance = false;
  dumps = 0;
}

-- The template arguments of `SimpleStringDictionary`.
abbrev pub key_size : ℕ
key_size = 256

abbrev pub value_size : ℕ
value_size = 256

abbrev pub num_entries : ℕ
num_entries = 64

-- The parameters of `initializeCrashpad`.
pub record InitArgs : Type 0 where
  pub app_data_dir : JString
  pub lib_dir : JString
  pub platform : JString
  pub version : JString
  pub os_version : JString
  pub upload_url : JString
  pub uploads_enabled : Bool
  pub no_rate_limit : Bool
  pub annotation_keys : List JString
  pub annotation_values : List JString
  pub dynamic_annotation_keys : List JString
  pub marker_path : JString

-- The five annotations that every report carries.
unfoldable pub required_annotations : Bytes → Bytes → Bytes → Bytes → StdMap
required_annotations process platform version os_version = put (codes "osVersion") os_version (
    put (codes "version") version (
      put (codes "platform") platform
        (put (codes "process") process (put (codes "format") (codes "minidump") []))))

-- The loop that merges the caller's annotations. A value that the second array lacks is a null
-- reference, and a null `const char*` cannot be made into a `std::string`.
unfoldable pub merge_annotations : List JString → List JString → StdMap → Option StdMap
merge_annotations [] values m = some m
merge_annotations (j_key ∷ ks) [] m = none
merge_annotations (j_key ∷ ks) (j_val ∷ vs) m = do
  key_chars ← get_string_utf_chars j_key
  val_chars ← get_string_utf_chars j_val
  key ← key_chars
  val ← val_chars
  merge_annotations ks vs (put key val m)

abbrev pub allow : Bytes → Bytes
allow key = codes "--allow-annotation=" ++ key

-- The loop over the annotations: `arguments.push_back("--allow-annotation=" + kv.first)`.
push_allowed : List Bytes → List Bytes → List Bytes
push_allowed arguments [] = arguments
push_allowed arguments (key ∷ ks) = push_allowed (arguments ++ allow key ∷ []) ks

-- The loop over the dynamic keys, which passes over a null string.
push_dynamic : List Bytes → List JString → Option (List Bytes)
push_dynamic arguments [] = some arguments
push_dynamic arguments (null_ref ∷ ks) = none
push_dynamic arguments (text none ∷ ks) = push_dynamic arguments ks
push_dynamic arguments (text (some key) ∷ ks) = push_dynamic (arguments ++ allow key ∷ []) ks

-- The keys of the system that are let through.
abbrev pub passthrough : List Bytes
passthrough = codes "ptype" ∷ codes "osarch" ∷ []

-- The command line of the handler.
unfoldable pub build_arguments : Bool → StdMap → List JString → Option (List Bytes)
unfolding push_allowed push_dynamic
build_arguments no_rate_limit annotations dynamic_keys =
    let rate = if no_rate_limit then codes "--no-rate-limit" ∷ [] else [] in
    push_dynamic (push_allowed (push_allowed rate (keys annotations)) passthrough) dynamic_keys
