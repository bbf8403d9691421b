-- ===== src/Handler.antt =====
-- patches/crashpad/0001-annotation-allowlist-for-upload-filter-and-minidump-write.patch: what the
-- repository adds to the crash handler. The options of the handler, the fields of an upload and
-- the annotations of a minidump are modelled as far as the patch shows them. A `std::set` is the
-- list of its elements, since it is only read by `count` and `empty`; a pointer to one is `none`
-- where it is null.
pub mod Kept
pub mod Options
pub mod Survives
pub mod Shown
mod Tests
use crashkit.Prelude.{
  Bool, true, false, not, ◌||◌, Option, none, some, List, [], ◌∷◌, ◌++◌, map, if◌then◌else◌,
}
use crashkit.Prelude.Bytes.{Bytes, ◌=b◌}
use crashkit.StdMap.{StdMap, elem}

-- `options.allowed_annotations.insert(optarg)`
abbrev pub insert : Bytes → List Bytes → List Bytes
insert key allowed = if elem key allowed then allowed else key ∷ allowed

-- `allowed_annotations.empty()`
abbrev pub is_empty : List Bytes → Bool
is_empty [] = true
is_empty (key ∷ allowed) = false

-- The case `kOptionAllowAnnotation`; every other option leaves the set alone.
abbrev pub allow_optarg : Option Bytes → List Bytes → List Bytes
allow_optarg none allowed = allowed
allow_optarg (some optarg) allowed = insert optarg allowed

-- One round of the loop over the options. `getopt_long` gives the value of an `allow-annotation`
-- option, and `none` for every other option.
abbrev pub read_option : (Bytes → Option Bytes) → List Bytes → Bytes → List Bytes
read_option getopt_long allowed argument = allow_optarg (getopt_long argument) allowed

-- The loop over the options, with the set so far.
pub read_options : (Bytes → Option Bytes) → List Bytes → List Bytes → List Bytes
read_options getopt_long allowed [] = allowed
read_options getopt_long allowed (argument ∷ arguments) =
    read_options getopt_long (read_option getopt_long allowed argument) arguments

-- The form fields that `UploadReport` sets from the parameters of a report. `minidump_key` is
-- `kMinidumpKey`; whether a value for it was discarded only shows in the log.
unfoldable pub form_data : Bytes → List Bytes → StdMap → StdMap
form_data minidump_key allowed [] = []
form_data minidump_key allowed ((key, value) ∷ parameters) =
    let rest = form_data minidump_key allowed parameters in
    if key =b minidump_key
    then rest
    else if is_empty allowed || elem key allowed
    then (key, value) ∷ rest
    else rest

-- The loop that erases the entries whose keys are not in the set.
unfoldable pub erase_others : List Bytes → StdMap → StdMap
erase_others allowed [] = []
erase_others allowed ((key, value) ∷ m) =
    let rest = erase_others allowed m in
    if not (elem key allowed) then rest else (key, value) ∷ rest

-- `if (allowed_annotations)` around it.
unfoldable pub filter_simple_map : Option (List Bytes) → StdMap → StdMap
unfolding erase_others
filter_simple_map none m = m
filter_simple_map (some allowed) m = erase_others allowed m

-- `AnnotationSnapshot`
pub record AnnotationSnapshot : Type 0 where
  pub name : Bytes
  pub value : Bytes

-- `erase(remove_if(…))`
unfoldable pub remove_others : List Bytes → List AnnotationSnapshot → List AnnotationSnapshot
remove_others allowed [] = []
remove_others allowed (a ∷ annotations) =
    let rest = remove_others allowed annotations in
    if not (elem a.name allowed) then rest else a ∷ rest

unfoldable pub filter_annotation_list :
    Option (List Bytes) → List AnnotationSnapshot → List AnnotationSnapshot
unfolding remove_others
filter_annotation_list none annotations = annotations
filter_annotation_list (some allowed) annotations = remove_others allowed annotations

-- A module's annotations in a snapshot, and those that the module's writer is given.
pub record ModuleSnapshot : Type 0 where
  pub simple_map : StdMap
  pub annotation_objects : List AnnotationSnapshot

pub module_annotations : Option (List Bytes) → ModuleSnapshot → ModuleSnapshot
module_annotations allowed m = record m {
  simple_map = filter_simple_map allowed m.simple_map;
  annotation_objects = filter_annotation_list allowed m.annotation_objects;
}

-- A process's annotations in a snapshot, and those that are written to the minidump.
pub record ProcessSnapshot : Type 0 where
  pub annotations : StdMap
  pub modules : List ModuleSnapshot

pub minidump_annotations : Option (List Bytes) → ProcessSnapshot → ProcessSnapshot
unfolding module_annotations
minidump_annotations allowed p = record p {
  annotations = filter_simple_map allowed p.annotations;
  modules = map (module_annotations allowed) p.modules;
}
