-- ===== src/Handler/Kept.antt =====
-- Which annotations reach the upload and the minidump.
use crashkit.Prelude.{
  ◌≡◌, refl, ◌∙◌, subst, Bool, true, false, not, ◌&&◌, ◌||◌, Option, none, some, List, [], ◌∷◌, map,
  arith, if◌then◌else◌,
}
use crashkit.Prelude.Bytes.{Bytes, codes, ◌=b◌, =b_iff, =b_refl}
use crashkit.StdMap.{StdMap, lookup, keys, elem}
use crashkit.Bridge.{JString, passthrough, build_arguments}
use crashkit.Bridge.Arguments.{texts}
use crashkit.Handler.Options.{IsGetopt, read_options-build_arguments}
use crashkit.Handler.{
  is_empty, read_options, form_data, erase_others, filter_simple_map, AnnotationSnapshot,
  remove_others, filter_annotation_list, ModuleSnapshot, module_annotations, ProcessSnapshot,
  minidump_annotations,
}

lookup-erase_others :
    (allowed : List Bytes) (k : Bytes) (m : StdMap)
    → lookup k (erase_others allowed m) ≡ (if elem k allowed then lookup k m else none)
unfolding lookup erase_others
lookup-erase_others allowed k [] = ground arith
lookup-erase_others allowed k ((j, v) ∷ m) =
    ground (arith, lookup-erase_others allowed k m, =b_iff k j)

lookup-form_data :
    (minidump_key : Bytes) (allowed : List Bytes) (k : Bytes) (m : StdMap)
    → lookup k (form_data minidump_key allowed m) ≡ (
        if not (k =b minidump_key) && (is_empty allowed || elem k allowed)
        then lookup k m
        else none)
unfolding lookup form_data
lookup-form_data minidump_key allowed k [] = ground arith
lookup-form_data minidump_key allowed k ((j, v) ∷ m) =
    ground (arith, lookup-form_data minidump_key allowed k m, =b_iff k j)

abbrev pub names : List AnnotationSnapshot → List Bytes
names annotations = map (λ a. a.name) annotations

elem-remove_others :
    (allowed : List Bytes) (k : Bytes) (annotations : List AnnotationSnapshot)
    → elem k (names (remove_others allowed annotations))
      ≡ elem k allowed && elem k (names annotations)
unfolding remove_others
elem-remove_others allowed k [] = ground arith
elem-remove_others allowed k (a ∷ annotations) =
    ground (arith, elem-remove_others allowed k annotations, =b_iff k a.name)

-- What a set keeps, under one key, of a report's parameters, of a process's annotations and of a
-- module's.
pub record Keeps (minidump_key : Bytes) (set : List Bytes) (k : Bytes) (keeps : Bool)
    (parameters : StdMap) (p : ProcessSnapshot) (m : ModuleSnapshot) : Type 0 where
  pub uploaded :
      lookup k (form_data minidump_key set parameters)
      ≡ (if not (k =b minidump_key) && keeps then lookup k parameters else none)
  pub process_annotation :
      lookup k (minidump_annotations (some set) p).annotations
      ≡ (if keeps then lookup k p.annotations else none)
  pub module_annotation :
      lookup k (module_annotations (some set) m).simple_map
      ≡ (if keeps then lookup k m.simple_map else none)
  pub annotation_objects :
      elem k (names (module_annotations (some set) m).annotation_objects)
      ≡ keeps && elem k (names m.annotation_objects)

nonempty_of_elem : (j : Bytes) (set : List Bytes) → elem j set ≡ true → is_empty set ≡ false
nonempty_of_elem j [] h = ground (arith, h)
nonempty_of_elem j (i ∷ set) h = refl

nonempty-Keeps :
    (minidump_key : Bytes) (set : List Bytes) (k : Bytes) (parameters : StdMap)
    (p : ProcessSnapshot) (m : ModuleSnapshot)
    → is_empty set ≡ false
    → Keeps minidump_key set k (elem k set) parameters p m
unfolding minidump_annotations module_annotations filter_simple_map filter_annotation_list
nonempty-Keeps minidump_key set k parameters p m h = record {
  uploaded = ground (arith, lookup-form_data minidump_key set k parameters, h);
  process_annotation = lookup-erase_others set k p.annotations;
  module_annotation = lookup-erase_others set k m.simple_map;
  annotation_objects = elem-remove_others set k m.annotation_objects;
}

-- With the arguments that the bridge builds, the upload and the minidump keep the same annotations:
-- under each key, what was there if the key is one of the annotations, `ptype`, `osarch` or a
-- dynamic key, and nothing else; the upload also drops the key of the minidump itself.
pub build_arguments-Keeps :
    (getopt_long : Bytes → Option Bytes) (minidump_key : Bytes) (no_rate_limit : Bool)
    (annotations : StdMap) (dynamic : List JString) (arguments : List Bytes) (k : Bytes)
    (parameters : StdMap) (p : ProcessSnapshot) (m : ModuleSnapshot)
    → IsGetopt getopt_long
    → build_arguments no_rate_limit annotations dynamic ≡ some arguments
    → Keeps minidump_key
        (read_options getopt_long [] arguments)
        k
        ((elem k (keys annotations) || elem k passthrough) || elem k (texts dynamic))
        parameters
        p
        m
build_arguments-Keeps getopt_long minidump_key b annotations dynamic arguments k parameters p m w
      h =
    let set = read_options getopt_long [] arguments in
    let e = read_options-build_arguments getopt_long b annotations dynamic arguments k w h in
    let q =
      read_options-build_arguments getopt_long b annotations dynamic arguments (codes "ptype") w
        h in
    let n = nonempty_of_elem (codes "ptype") set (q ∙ passes (keys annotations) (texts dynamic)) in
    subst (λ keeps. Keeps minidump_key set k keeps parameters p m) e
      (nonempty-Keeps minidump_key set k parameters p m n)
  where
    passes :
        (xs ys : List Bytes)
        → (elem (codes "ptype") xs || elem (codes "ptype") passthrough) || elem (codes "ptype") ys
          ≡ true
    passes xs ys = ground (arith, =b_refl (codes "ptype"))
