-- ===== src/Minidump/Page/Keys.antt =====
-- Counting keys: sorted items, sets, and the keys that are met for the first time.
use crashkit.Prelude.{
  ◌+◌, ◌≡◌, refl, sym, ap, ◌∙◌, Bool, true, false, not, ◌||◌, List, [], ◌∷◌, ◌++◌, if◌then◌else◌,
  length, arith, inl, inr, Bool-cases,
}
use crashkit.Prelude.Bytes.{◌=b◌, =b_iff, =b_refl, bytes_lt}
use crashkit.StdMap.{elem}
use crashkit.Minidump.Reader.{Text}
use crashkit.Minidump.Page.{item_keys, insert_item, sorted_items, set_union, count}

-- A `dict`'s keys.
abbrev pub Distinct : List Text → Type 0
Distinct [] = Unit
Distinct (k ∷ ks) = (elem k ks ≡ false) × Distinct ks

-- The keys among the second that are neither seen nor repeated.
unfoldable pub fresh : List Text → List Text → List Text
fresh seen [] = []
fresh seen (k ∷ ks) =
    let rest = fresh (if elem k seen then seen else k ∷ seen) ks in
    if elem k seen then rest else k ∷ rest

-- Two lists of seen keys with the same elements.
abbrev pub Same : List Text → List Text → Type 0
Same s t = (k : Text) → elem k s ≡ elem k t

pub count-insert_item :
    (p : Text → Bool) (e : Text × Text) (d : List (Text × Text))
    → count p (item_keys (insert_item e d)) ≡ count p (item_keys (e ∷ d))
unfolding count insert_item
count-insert_item p e [] = refl
count-insert_item p e (f ∷ d) = elim (Bool-cases (bytes_lt f.0 e.0)) [
  | inl b ↦ rw b (omega (arith, count-insert_item p e d))
  | inr b ↦ rw b refl
]

pub count-sorted_items :
    (p : Text → Bool) (d : List (Text × Text))
    → count p (item_keys (sorted_items d)) ≡ count p (item_keys d)
unfolding count sorted_items
count-sorted_items p [] = refl
count-sorted_items p (e ∷ d) =
    omega (arith, count-insert_item p e (sorted_items d), count-sorted_items p d)

pub elem-insert_item :
    (k : Text) (e : Text × Text) (d : List (Text × Text))
    → elem k (item_keys (insert_item e d)) ≡ elem k (item_keys (e ∷ d))
unfolding insert_item
elem-insert_item k e [] = refl
elem-insert_item k e (f ∷ d) = elim (Bool-cases (bytes_lt f.0 e.0)) [
  | inl b ↦ rw b (ground (arith, elem-insert_item k e d))
  | inr b ↦ rw b refl
]

pub elem-sorted_items :
    (k : Text) (d : List (Text × Text)) → elem k (item_keys (sorted_items d)) ≡ elem k (item_keys d)
unfolding sorted_items
elem-sorted_items k [] = refl
elem-sorted_items k (e ∷ d) =
    ground (arith, elem-insert_item k e (sorted_items d), elem-sorted_items k d)

pub elem-set_union : (k : Text) (ks s : List Text) → elem k (set_union ks s) ≡ elem k ks || elem k s
unfolding set_union
elem-set_union k [] s = refl
elem-set_union k (j ∷ ks) s = elim (Bool-cases (elem j s)) [
  | inr e ↦ rw e (ground (arith, elem-set_union k ks (j ∷ s)))
  | inl e ↦ rw e (elim (Bool-cases (k =b j)) [
    | inl f ↦
        let there : elem k s ≡ true = ap (λ (x : Text). elem x s) ((=b_iff k j).0 f) ∙ e in
        ground (arith, elem-set_union k ks s, there)
    | inr f ↦ ground (arith, elem-set_union k ks s, f)
  ])
]

pub count-set_union :
    (p : Text → Bool) (ks s : List Text)
    → count p (set_union ks s) ≡ count p s + count p (fresh s ks)
unfolding set_union count fresh
count-set_union p [] s = omega arith
count-set_union p (k ∷ ks) s = elim (Bool-cases (elem k s)) [
  | inl e ↦ rw e (count-set_union p ks s)
  | inr e ↦ rw e (omega (arith, count-set_union p ks (k ∷ s)))
]

pub fresh-Same : (s t ks : List Text) → Same s t → fresh s ks ≡ fresh t ks
unfolding fresh
fresh-Same s t [] h = refl
fresh-Same s t (k ∷ ks) h = elim (Bool-cases (elem k s)) [
  | inl e ↦ rw (e, sym (h k) ∙ e) (fresh-Same s t ks h)
  | inr e ↦
      rw (e, sym (h k) ∙ e)
        (ap (λ (l : List Text). k ∷ l)
          (fresh-Same (k ∷ s) (k ∷ t) ks (λ j. ap (λ b. j =b k || b) (h j))))
]

pub fresh-Distinct :
    (ks s : List Text)
    → Distinct ks
    → ((k : Text) → elem k ks ≡ true → elem k s ≡ false)
    → fresh s ks ≡ ks
unfolding fresh
fresh-Distinct [] s h g = refl
fresh-Distinct (k ∷ ks) s (n, h) g =
    let first : elem k s ≡ false = g k (ground (arith, =b_refl k)) in
    let others : (j : Text) → elem j ks ≡ true → elem j (k ∷ s) ≡ false = λ j m.
      elim (Bool-cases (j =b k)) [
        | inl f ↦ absurd (ground (arith, m, n, ap (λ (x : Text). elem x ks) ((=b_iff j k).0 f)))
        | inr f ↦ ground (arith, f, g j (ground (arith, m)))
      ] in
    rw first (ap (λ (l : List Text). k ∷ l) (fresh-Distinct ks (k ∷ s) h others))

pub count-append :
    (p : Text → Bool) (xs ys : List Text) → count p (xs ++ ys) ≡ count p xs + count p ys
unfolding count
count-append p [] ys = omega arith
count-append p (x ∷ xs) ys = omega (arith, count-append p xs ys)

pub count-complement :
    (p : Text → Bool) (ks : List Text) → count p ks + count (λ k. not (p k)) ks ≡ length ks
unfolding count
count-complement p [] = omega arith
count-complement p (k ∷ ks) = elim (Bool-cases (p k)) [
  | inl e ↦ rw e (omega (arith, count-complement p ks))
  | inr e ↦ rw e (omega (arith, count-complement p ks))
]

-- A set holds each key once.
pub set_union-Distinct : (ks s : List Text) → Distinct s → Distinct (set_union ks s)
unfolding set_union
set_union-Distinct [] s h = h
set_union-Distinct (k ∷ ks) s h = elim (Bool-cases (elem k s)) [
  | inl e ↦ rw e (set_union-Distinct ks s h)
  | inr e ↦ rw e (set_union-Distinct ks (k ∷ s) (e, h))
]

pub count-Distinct :
    (k : Text) (s : List Text) → Distinct s → count (λ j. k =b j) s ≡ (if elem k s then 1 else 0)
unfolding count
count-Distinct k [] h = refl
count-Distinct k (j ∷ s) (n, h) = elim (Bool-cases (k =b j)) [
  | inl e ↦
      let out : elem k s ≡ false = ap (λ (x : Text). elem x s) ((=b_iff k j).0 e) ∙ n in
      ground (arith, e, out, count-Distinct k s h)
  | inr e ↦ ground (arith, e, count-Distinct k s h)
]
