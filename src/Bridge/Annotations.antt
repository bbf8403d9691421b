-- ===== src/Bridge/Annotations.antt =====
-- The annotations that every report carries, merged with the caller's.
use crashkit.Prelude.{
  ◌≤◌, ◌≡◌, refl, ap, ◌∙◌, Option, none, some, List, [], ◌∷◌, arith, if◌then◌else◌, length, All,
}
use crashkit.Prelude.Bytes.{Bytes, codes, ◌=b◌}
use crashkit.StdMap.{StdMap, put, lookup, lookup-put}
use crashkit.StdMap.Order.{IsSorted, put-IsSorted}
use crashkit.Bridge.{JString, null_ref, text, required_annotations, merge_annotations}

-- The reference holds a string.
abbrev pub IsText : JString → Type 0
IsText null_ref = ⊥
IsText (text none) = ⊥
IsText (text (some s)) = Unit

-- The last value that the caller gave a key.
pub given : Bytes → List JString → List JString → Option Bytes
given k (text (some key) ∷ ks) (text (some val) ∷ vs) = elim (given k ks vs) [
  | none ↦ if k =b key then some val else none
  | some later ↦ some later
]
given k _ _ = none

abbrev pub or_else : Option Bytes → Option Bytes → Option Bytes
or_else none d = d
or_else (some v) d = some v

merge_lookup :
    (k : Bytes) (ks vs : List JString) (m result : StdMap)
    → merge_annotations ks vs m ≡ some result
    → lookup k result ≡ or_else (given k ks vs) (lookup k m)
unfolding merge_annotations given
merge_lookup k [] vs m result h = ground arith
merge_lookup k (text (some key) ∷ ks) (text (some val) ∷ vs) m result h =
    ground (arith, merge_lookup k ks vs (put key val m) result h, lookup-put key k val m)
merge_lookup k (j ∷ ks) vs m result h = ground arith

merge-IsSorted :
    (ks vs : List JString) (m result : StdMap)
    → merge_annotations ks vs m ≡ some result
    → IsSorted m
    → IsSorted result
unfolding merge_annotations
merge-IsSorted [] vs m result h s = ground arith
merge-IsSorted (text (some key) ∷ ks) (text (some val) ∷ vs) m result h s =
    merge-IsSorted ks vs (put key val m) result h (put-IsSorted key val m s)
merge-IsSorted (j ∷ ks) vs m result h s = ground arith

required-IsSorted :
    (process platform version os_version : Bytes)
    → IsSorted (required_annotations process platform version os_version)
unfolding required_annotations
required-IsSorted a b c d =
    put-IsSorted _ d _
      (put-IsSorted _ c _ (put-IsSorted _ b _ (put-IsSorted _ a _ (put-IsSorted _ _ [] tt))))

-- The value of a required annotation.
abbrev pub required : Bytes → Bytes → Bytes → Bytes → Bytes → Option Bytes
required process platform version os_version k =
    if k =b codes "osVersion"
    then some os_version
    else if k =b codes "version"
    then some version
    else if k =b codes "platform"
    then some platform
    else if k =b codes "process"
    then some process
    else if k =b codes "format"
    then some (codes "minidump")
    else none

lookup-required :
    (process platform version os_version k : Bytes)
    → lookup k (required_annotations process platform version os_version)
      ≡ required process platform version os_version k
unfolding required_annotations
lookup-required a b c d k = simp lookup-put (unfold lookup in refl)

-- If the merge is defined, each annotation of the report has the last value that the caller gave
-- for its key, or else its required value, and no key stands twice.
pub merge_annotations-lookup :
    (ks vs : List JString) (process platform version os_version k : Bytes) (result : StdMap)
    → merge_annotations ks vs (required_annotations process platform version os_version)
      ≡ some result
    → (lookup k result ≡ or_else (given k ks vs) (required process platform version os_version k))
      × IsSorted result
merge_annotations-lookup ks vs a b c d k result h = (
  merge_lookup k ks vs _ result h ∙ ap (or_else (given k ks vs)) (lookup-required a b c d k),
  merge-IsSorted ks vs _ result h (required-IsSorted a b c d),
)

-- The merge is defined if every reference holds a string and no key lacks its value.
pub merge_annotations_total :
    (ks vs : List JString) (m : StdMap)
    → All IsText ks
    → All IsText vs
    → length ks ≤ length vs
    → (result : StdMap) × (merge_annotations ks vs m ≡ some result)
unfolding merge_annotations
merge_annotations_total [] vs m h g l = (m, refl)
merge_annotations_total (j ∷ ks) [] m h g l = absurd (omega arith)
merge_annotations_total (null_ref ∷ ks) (v ∷ vs) m h g l = absurd h.0
merge_annotations_total (text none ∷ ks) (v ∷ vs) m h g l = absurd h.0
merge_annotations_total (text (some key) ∷ ks) (null_ref ∷ vs) m h g l = absurd g.0
merge_annotations_total (text (some key) ∷ ks) (text none ∷ vs) m h g l = absurd g.0
merge_annotations_total (text (some key) ∷ ks) (text (some val) ∷ vs) m h g l =
    merge_annotations_total ks vs (put key val m) h.1 g.1 (omega arith)
