-- ===== src/Api.antt =====
-- crashkit/src/main/java/com/duckduckgo/android_crashkit/Crashpad.kt: the Kotlin object. Its two
-- flags, the files of the application, how often the callback ran and the native globals are the
-- record `Api`. `none` stands for a native abort, or for a link error that leaves the function.
pub mod Init
pub mod Guards
pub mod Session
pub mod Report
pub mod Quiet
mod Tests
use crashkit.Prelude.{
  ℕ, ◌+◌, Bool, true, false, not, ◌&&◌, ◌||◌, Option, none, some, List, [], ◌∷◌, ◌++◌, map,
  if◌then◌else◌, ◌>>=◌,
}
use crashkit.Prelude.Bytes.{Bytes, codes, ◌=b◌}
use crashkit.Bridge.{JString, text, Crashpad, Bridge, InitArgs}
use crashkit.Bridge.Initialize.{initialize_crashpad}
use crashkit.Bridge.Marker.{Files}
use crashkit.Bridge.Dynamic.{native_set_annotation}
use crashkit.Bridge.Crash.{native_crash, native_dump_without_crash}

-- What `onCrash` does when it is invoked.
pub data Callback : Type 0 where
  returns throws : Callback

-- `CrashpadConfig`
pub record CrashpadConfig : Type 0 where
  pub upload_url : Bytes
  pub uploads_enabled : Bool
  pub no_rate_limit : Bool
  pub on_crash : Option Callback

-- The arguments of `init`, with the two directories that it takes from its `Context`; the entries
-- of the map and of the set stand in their order of iteration.
pub record InitCall : Type 0 where
  pub files_dir : Bytes
  pub native_library_dir : Bytes
  pub platform : Bytes
  pub version : Bytes
  pub os_version : Bytes
  pub extra_annotations : List (Bytes × Bytes)
  pub dynamic_annotation_keys : List Bytes
  pub config : CrashpadConfig

-- `linked` says whether the native functions resolve.
pub record Api : Type 0 where
  pub inited : Bool
  pub library_loaded : Bool
  pub linked : Bool
  pub files : Files
  pub invoked : ℕ
  pub bridge : Bridge

pub data Result : Type 0 where
  returned : Bool → Result
  threw : Result

-- `File(dir, child).absolutePath`, for an absolute directory.
abbrev pub file : Bytes → Bytes → Bytes
file dir child = dir ++ b'/' ∷ child

abbrev pub marker_file : InitCall → Bytes
marker_file call = file call.files_dir (codes "crashpad/crash_marker")

-- `File.delete()`, whose result is not read.
abbrev pub delete : (Bytes → Bool) → Bytes → Files → Files
delete deletes path files = if deletes path then (λ q. not (q =b path) && files q) else files

-- `if (config.onCrash != null) markerFile.absolutePath else ""`
abbrev pub marker_path : Option Callback → Bytes → Bytes
marker_path none path = []
marker_path (some callback) path = path

abbrev pub jstring : Bytes → JString
jstring s = text (some s)

-- The arguments of the native call.
unfoldable pub native_args : InitCall → InitArgs
native_args call = record {
  app_data_dir = jstring call.files_dir;
  lib_dir = jstring (file call.native_library_dir (codes "crashpad_handler.so"));
  platform = jstring call.platform;
  version = jstring call.version;
  os_version = jstring call.os_version;
  upload_url = jstring call.config.upload_url;
  uploads_enabled = call.config.uploads_enabled;
  no_rate_limit = call.config.no_rate_limit;
  annotation_keys = map (λ e. jstring e.0) call.extra_annotations;
  annotation_values = map (λ e. jstring e.1) call.extra_annotations;
  dynamic_annotation_keys = map jstring call.dynamic_annotation_keys;
  marker_path = jstring (marker_path call.config.on_crash (marker_file call));
}

-- `runCatching { … }.getOrDefault(false)`: a native function that does not resolve throws.
abbrev pub run_catching : Bool → Option (Bool × Bridge) → Bridge → Option (Bool × Bridge)
run_catching true native b = native
run_catching false native b = some (false, b)

-- The native call, and `inited = ok`.
pub initialize : Crashpad → Option Bytes → InitCall → Api → Option (Result × Api)
initialize c cmdline call s =
    run_catching s.linked (initialize_crashpad c (native_args call) cmdline s.bridge) s.bridge
    >>= (λ r. some (returned r.0, record s { inited = r.0; bridge = r.1 }))

-- A pending marker is deleted, and then the callback runs; what it throws leaves `init`.
pub consume :
    (Bytes → Bool)
    → Option Callback
    → Bytes
    → Api
    → (Api → Option (Result × Api))
    → Option (Result × Api)
consume deletes none path s next = next s
consume deletes (some returns) path s next =
    if s.files path
    then next (record s { files = delete deletes path s.files; invoked = s.invoked + 1 })
    else next s
consume deletes (some throws) path s next =
    if s.files path
    then some (threw, record s { files = delete deletes path s.files; invoked = s.invoked + 1 })
    else next s

unfoldable pub init :
    Crashpad → (Bytes → Bool) → Option Bytes → InitCall → Api → Option (Result × Api)
init c deletes cmdline call s =
    if not s.library_loaded
    then some (returned false, s)
    else if s.inited
    then some (returned true, s)
    else consume deletes call.config.on_crash (marker_file call) s (initialize c cmdline call)

-- A call of a native function that may not resolve.
abbrev pub resolved {ℓ} : {A : Type ℓ} → Bool → Option A → Option A
resolved true native = native
resolved false native = none

-- `if (!inited) return`
unfoldable pub set_annotation : Bytes → Bytes → Api → Option Api
set_annotation key value s =
    if not s.inited
    then some s
    else resolved s.linked (native_set_annotation (jstring key) (jstring value) s.bridge)
      >>= (λ b. some (record s { bridge = b }))

unfoldable pub crash : Api → Option Bool
crash s = if not s.library_loaded then some false else resolved s.linked native_crash

unfoldable pub dump_without_crash : Api → Option (Bool × Api)
dump_without_crash s =
    if not s.library_loaded
    then some (false, s)
    else let (ok, b) = native_dump_without_crash s.bridge in
      resolved s.linked (some (ok, record s { bridge = b }))
