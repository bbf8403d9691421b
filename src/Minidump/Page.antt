-- ===== src/Minidump/Page.antt =====
-- server/crashpad_server.py: the table of annotations of `_detail_page`, as its rows. The HTML
-- around them is left out.
pub mod Keys
pub mod Counts
pub mod Parsed
use crashkit.Prelude.{
  ℕ, zero, suc, ◌+◌, ◌-◌, Bool, true, false, not, List, [], ◌∷◌, ◌++◌, map, if◌then◌else◌, length,
}
use crashkit.Prelude.Bytes.{bytes_lt}
use crashkit.StdMap.{elem}
use crashkit.Minidump.Reader.{Text}
use crashkit.Minidump.Reader.Annotations.{Annotations}

-- The last column: where the annotation comes from.
pub data Place : Type 0 where
  in_process : Place
  in_module : Place

pub record Row : Type 0 where
  pub key : Text
  pub value : Text
  pub filtered : Bool
  pub place : Place

abbrev pub item_keys : List (Text × Text) → List Text
item_keys d = map (λ e. e.0) d

-- `sorted(dmp_simple.items())`, for a `dict`, whose keys are distinct.
unfoldable pub insert_item : Text × Text → List (Text × Text) → List (Text × Text)
insert_item e [] = e ∷ []
insert_item e (f ∷ d) =
    let rest = insert_item e d in if bytes_lt f.0 e.0 then f ∷ rest else e ∷ f ∷ d

unfoldable pub sorted_items : List (Text × Text) → List (Text × Text)
sorted_items [] = []
sorted_items (e ∷ d) = insert_item e (sorted_items d)

module _ (http_ann : List Text) where
  abbrev pub is_filtered : Text → Bool
  is_filtered k = not (elem k http_ann)

  abbrev pub row : Place → Text × Text → Row
  row place e = record { key = e.0; value = e.1; filtered = is_filtered e.0; place = place }

  -- The loop over the typed annotations, with the keys seen so far.
  unfoldable pub typed_rows : List Text → List (Text × Text) → List Row
  typed_rows seen [] = []
  typed_rows seen (e ∷ typed) =
      let rest = typed_rows (if elem e.0 seen then seen else e.0 ∷ seen) typed in
      if elem e.0 seen then rest else row in_module e ∷ rest

  unfoldable pub dmp_rows : Annotations → List Row
  dmp_rows a =
      map (row in_process) (sorted_items a.simple)
      ++ typed_rows (item_keys (sorted_items a.simple)) a.typed

-- `set(xs) | s`
unfoldable pub set_union : List Text → List Text → List Text
set_union [] s = s
set_union (k ∷ ks) s = set_union ks (if elem k s then s else k ∷ s)

unfoldable pub all_dmp_keys : Annotations → List Text
all_dmp_keys a = set_union (item_keys a.typed) (set_union (item_keys a.simple) [])

unfoldable pub count : (Text → Bool) → List Text → ℕ
count p [] = 0
count p (k ∷ ks) = (if p k then 1 else 0) + count p ks

unfoldable pub filtered_count : List Text → Annotations → ℕ
filtered_count http_ann a = count (is_filtered http_ann) (all_dmp_keys a)

unfoldable pub sent_count : List Text → Annotations → ℕ
sent_count http_ann a = length (all_dmp_keys a) - filtered_count http_ann a
