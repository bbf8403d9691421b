-- ===== src/Minidump/Page/Counts.antt =====
-- The numbers above the table of annotations are those of its rows.
use crashkit.Prelude.{
  ℕ, ◌+◌, ◌≡◌, refl, ap, ◌∙◌, Bool, not, ◌||◌, List, [], ◌∷◌, ◌++◌, map, if◌then◌else◌, arith, inl,
  inr, Bool-cases, All, All-append,
}
use crashkit.Prelude.Bytes.{◌=b◌}
use crashkit.StdMap.{elem}
use crashkit.Minidump.Reader.{Text}
use crashkit.Minidump.Reader.Annotations.{Annotations}
use crashkit.Minidump.Page.{
  Row, row, in_process, item_keys, sorted_items, is_filtered, typed_rows, dmp_rows, set_union,
  all_dmp_keys, count, filtered_count, sent_count,
}
use crashkit.Minidump.Page.Keys.{
  Distinct, fresh, Same, count-sorted_items, elem-sorted_items, elem-set_union, count-set_union,
  fresh-Same, fresh-Distinct, set_union-Distinct, count-Distinct, count-append, count-complement,
}

abbrev pub row_keys : List Row → List Text
row_keys rows = map (λ (r : Row). r.key) rows

unfoldable pub count_rows : (Bool → Bool) → List Row → ℕ
count_rows p [] = 0
count_rows p (r ∷ rows) = (if p r.filtered then 1 else 0) + count_rows p rows

-- The rows.
row_keys-typed_rows :
    (http seen : List Text) (typed : List (Text × Text))
    → row_keys (typed_rows http seen typed) ≡ fresh seen (item_keys typed)
unfolding typed_rows fresh
row_keys-typed_rows http seen [] = refl
row_keys-typed_rows http seen (e ∷ typed) = elim (Bool-cases (elem e.0 seen)) [
  | inl b ↦ rw b (row_keys-typed_rows http seen typed)
  | inr b ↦ rw b (ap (λ (l : List Text). e.0 ∷ l) (row_keys-typed_rows http (e.0 ∷ seen) typed))
]

-- Rows are marked by their keys.
count_rows-eq-count :
    (http : List Text) (p : Bool → Bool) (rows : List Row)
    → All (λ (r : Row). r.filtered ≡ is_filtered http r.key) rows
    → count_rows p rows ≡ count (λ k. p (is_filtered http k)) (row_keys rows)
unfolding count_rows count
count_rows-eq-count http p [] h = refl
count_rows-eq-count http p (r ∷ rows) (e, h) =
    ap (λ b. (if p b then 1 else 0) + count_rows p rows) e
    ∙ ap (λ n. (if p (is_filtered http r.key) then 1 else 0) + n)
        (count_rows-eq-count http p rows h)

module _ (http : List Text) where
  typed_rows-marked :
      (seen : List Text) (typed : List (Text × Text))
      → All (λ (r : Row). r.filtered ≡ is_filtered http r.key) (typed_rows http seen typed)
  unfolding typed_rows
  typed_rows-marked seen [] = tt
  typed_rows-marked seen (e ∷ typed) = elim (Bool-cases (elem e.0 seen)) [
    | inl b ↦ rw b (typed_rows-marked seen typed)
    | inr b ↦ rw b (refl, typed_rows-marked (e.0 ∷ seen) typed)
  ]

  process_rows-marked :
      (d : List (Text × Text))
      → All (λ (r : Row). r.filtered ≡ is_filtered http r.key) (map (row http in_process) d)
  process_rows-marked [] = tt
  process_rows-marked (e ∷ d) = (refl, process_rows-marked d)

  row_keys-process :
      (d : List (Text × Text)) (rows : List Row)
      → row_keys (map (row http in_process) d ++ rows) ≡ item_keys d ++ row_keys rows
  row_keys-process [] rows = refl
  row_keys-process (e ∷ d) rows = ap (λ (l : List Text). e.0 ∷ l) (row_keys-process d rows)

module _ (http : List Text) (a : Annotations) (h : Distinct (item_keys a.simple)) where
  simple_Same : Same (item_keys (sorted_items a.simple)) (set_union (item_keys a.simple) [])
  simple_Same k =
      elem-sorted_items k a.simple ∙ ground (arith, elem-set_union k (item_keys a.simple) [])

  count_keys : (p : Text → Bool) → count p (row_keys (dmp_rows http a)) ≡ count p (all_dmp_keys a)
  unfolding dmp_rows all_dmp_keys count
  count_keys p =
      let simple = item_keys a.simple in
      let sorted = item_keys (sorted_items a.simple) in
      let rows : row_keys
            (map (row http in_process) (sorted_items a.simple) ++ typed_rows http sorted a.typed)
          ≡ sorted ++ fresh sorted (item_keys a.typed) =
        row_keys-process http (sorted_items a.simple) (typed_rows http sorted a.typed)
        ∙ ap (λ (l : List Text). sorted ++ l) (row_keys-typed_rows http sorted a.typed) in
      let same = fresh-Same sorted (set_union simple []) (item_keys a.typed) simple_Same in
      let once = fresh-Distinct simple [] h (λ k m. refl) in
      ap (count p) rows
      ∙ omega (
        arith,
        count-append p sorted (fresh sorted (item_keys a.typed)),
        count-sorted_items p a.simple,
        ap (count p) same,
        ap (count p) once,
        count-set_union p simple [],
        count-set_union p (item_keys a.typed) (set_union simple []),
      )

  count_rows_keys :
      (p : Bool → Bool)
      → count_rows p (dmp_rows http a) ≡ count (λ k. p (is_filtered http k)) (all_dmp_keys a)
  unfolding dmp_rows
  count_rows_keys p =
      count_rows-eq-count http p (dmp_rows http a) (
        All-append (λ (r : Row). r.filtered ≡ is_filtered http r.key)
          (map (row http in_process) (sorted_items a.simple))
          (typed_rows http (item_keys (sorted_items a.simple)) a.typed)
          (process_rows-marked http (sorted_items a.simple))
          (typed_rows-marked http (item_keys (sorted_items a.simple)) a.typed))
      ∙ count_keys (λ k. p (is_filtered http k))

  -- Each key has one row.
  count_row_keys :
      (k : Text)
      → count (λ j. k =b j) (row_keys (dmp_rows http a))
        ≡ (if elem k (item_keys a.simple) || elem k (item_keys a.typed) then 1 else 0)
  unfolding all_dmp_keys
  count_row_keys k =
      let simple = set_union (item_keys a.simple) [] in
      let once =
        set_union-Distinct (item_keys a.typed) simple
          (set_union-Distinct (item_keys a.simple) [] tt) in
      count_keys (λ j. k =b j)
      ∙ count-Distinct k (all_dmp_keys a) once
      ∙ ap (λ b. if b then 1 else 0)
          (ground (
            arith,
            elem-set_union k (item_keys a.typed) simple,
            elem-set_union k (item_keys a.simple) [],
          ))

-- The table of annotations has one row for each key among the simple and the typed annotations, and
-- the badges above it count its rows: the rows marked as filtered are as many as the keys that did
-- not arrive in the form, and the others as many as the page calls sent. The keys of the simple
-- annotations are distinct, as those of a dict are.
pub dmp_rows-count :
    (http : List Text) (a : Annotations)
    → Distinct (item_keys a.simple)
    → (count_rows (λ b. b) (dmp_rows http a) ≡ filtered_count http a)
      × (count_rows not (dmp_rows http a) ≡ sent_count http a)
      × ((k : Text)
          → count (λ j. k =b j) (row_keys (dmp_rows http a))
            ≡ (if elem k (item_keys a.simple) || elem k (item_keys a.typed) then 1 else 0))
unfolding filtered_count sent_count
dmp_rows-count http a h = (
  count_rows_keys http a h (λ b. b),
  omega (arith, count_rows_keys http a h not, count-complement (is_filtered http) (all_dmp_keys a)),
  count_row_keys http a h,
)
