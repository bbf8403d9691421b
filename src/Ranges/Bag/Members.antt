-- ===== src/Ranges/Bag/Members.antt =====
-- The bag as a collection: which ranges it holds, without their places in the array.
use crashkit.Prelude.{
  ℕ, suc, ◌+◌, ◌≤◌, ◌<◌, ◌≡◌, refl, sym, ap, ◌∙◌, Bool, true, false, ◌||◌, ==_iff, ==_refl,
  if◌then◌else◌, Bool-cases, ◌⊎◌, inl, inr, List, [], ◌∷◌, length, arith,
}
use mathlib.Core.List.{Perm}
use mathlib.Core.List.Perm
use crashkit.Ranges.{CheckedRange}
use crashkit.Ranges.Bag.{
  BagEntry, entry_is_active, bag_count, bag_count_from, insert_range, remove_range, matches,
}

-- The ranges that are held.
pub members : List BagEntry → List BagEntry
members [] = []
members (e ∷ bag) = let rest = members bag in if entry_is_active e then e ∷ rest else rest

abbrev pub entry_of : CheckedRange → BagEntry
entry_of range = record { base = range.base; size = range.size }

-- The range is not the empty one at address zero, which stands for a free entry.
abbrev pub IsRange : CheckedRange → Type 0
IsRange range = entry_is_active (entry_of range) ≡ true

pub length-members : (bag : List BagEntry) → length (members bag) ≤ length bag
unfolding members
length-members [] = omega arith
length-members (e ∷ bag) = ground (arith, length-members bag)

bag_count_from-eq : (n : ℕ) (bag : List BagEntry) → bag_count_from n bag ≡ n + length (members bag)
unfolding members bag_count_from
bag_count_from-eq n [] = omega arith
bag_count_from-eq n (e ∷ bag) =
    ground (arith, bag_count_from-eq (suc n) bag, bag_count_from-eq n bag)

-- `GetCount` is the number of ranges that are held.
pub bag_count-eq : (bag : List BagEntry) → bag_count bag ≡ length (members bag)
unfolding bag_count
bag_count-eq bag = bag_count_from-eq 0 bag ∙ omega arith

members_active :
    (e : BagEntry) (bag : List BagEntry)
    → entry_is_active e ≡ true
    → members (e ∷ bag) ≡ e ∷ members bag
unfolding members
members_active e bag h = rw h refl

members_free :
    (e : BagEntry) (bag : List BagEntry)
    → entry_is_active e ≡ false
    → members (e ∷ bag) ≡ members bag
unfolding members
members_free e bag h = rw h refl

-- What an insertion does: it puts the range into the bag if an entry is free, and else nothing.
abbrev pub Inserts : CheckedRange → List BagEntry → Bool × List BagEntry → Type 0
Inserts range bag (inserted, bag') =
    ((inserted ≡ true)
      × (bag_count bag < length bag)
      × Perm (members bag') (entry_of range ∷ members bag))
    ⊎ ((inserted ≡ false) × (bag_count bag ≡ length bag) × (bag' ≡ bag))

-- An entry in use is passed over.
passed-Inserts :
    (range : CheckedRange) (e : BagEntry) (bag : List BagEntry) (r : Bool × List BagEntry)
    → entry_is_active e ≡ true
    → Inserts range bag r
    → Inserts range (e ∷ bag) (r.0, e ∷ r.1)
passed-Inserts range e bag r a (inl (h, k, p)) = inl (
  h,
  omega (arith, bag_count-eq (e ∷ bag), ap length (members_active e bag a), bag_count-eq bag, k),
  rw (members_active e r.1 a, members_active e bag a)
      (Perm.trans (Perm.cons e p) (Perm.swap (entry_of range) e (members bag))),
)
passed-Inserts range e bag r a (inr (h, k, p)) = inr (
  h,
  omega (arith, bag_count-eq (e ∷ bag), ap length (members_active e bag a), bag_count-eq bag, k),
  ap (λ b. e ∷ b) p,
)

-- Inserting a range puts it into the bag, whatever there is, unless all entries are in use; then
-- it fails and changes nothing. The range is not the empty one at zero.
pub insert_range-Inserts :
    (range : CheckedRange) (bag : List BagEntry)
    → IsRange range
    → Inserts range bag (insert_range range bag)
unfolding insert_range
insert_range-Inserts range [] h = inr (refl, bag_count-eq [] ∙ (unfold members in refl), refl)
insert_range-Inserts range (e ∷ bag) h = elim (Bool-cases (entry_is_active e)) [
  | inr a ↦ rw a (
      inl (
        refl,
        omega (arith, bag_count-eq (e ∷ bag), ap length (members_free e bag a), length-members bag),
        rw (members_active (entry_of range) bag h, members_free e bag a) Perm.rfl,
      ))
  | inl a ↦
      rw a
        (passed-Inserts range e bag (insert_range range bag) a (insert_range-Inserts range bag h))
]

-- A test of whether a range is held.
pub holds : CheckedRange → List BagEntry → Bool
holds range [] = false
holds range (e ∷ es) = matches range e || holds range es

-- What a removal does: it takes the range out of the bag once if it is there, and else nothing.
abbrev pub Removes : CheckedRange → List BagEntry → Bool × List BagEntry → Type 0
Removes range bag (removed, bag') =
    ((removed ≡ true) × Perm (entry_of range ∷ members bag') (members bag))
    ⊎ ((removed ≡ false) × (holds range (members bag) ≡ false) × (bag' ≡ bag))

matches→eq : (range : CheckedRange) (e : BagEntry) → matches range e ≡ true → e ≡ entry_of range
matches→eq range e h =
    let b : e.base ≡ range.base =
      ground (arith, ==_iff e.base range.base, ==_iff e.size range.size) in
    let s : e.size ≡ range.size =
      ground (arith, ==_iff e.base range.base, ==_iff e.size range.size) in
    rw (sym b, sym s) refl

no_match :
    (range : CheckedRange) (e : BagEntry) (bag : List BagEntry)
    → matches range e ≡ false
    → holds range (members bag) ≡ false
    → holds range (members (e ∷ bag)) ≡ false
unfolding holds members
no_match range e bag h k = elim (Bool-cases (entry_is_active e)) [
  | inl a ↦ rw a (rw (h, k) refl)
  | inr a ↦ rw a k
]

members_passed :
    (range : CheckedRange) (e : BagEntry) (es bag : List BagEntry)
    → Perm (entry_of range ∷ members es) (members bag)
    → Perm (entry_of range ∷ members (e ∷ es)) (members (e ∷ bag))
members_passed range e es bag p = elim (Bool-cases (entry_is_active e)) [
  | inl a ↦
      rw (members_active e es a, members_active e bag a)
        (Perm.trans (Perm.swap e (entry_of range) (members es)) (Perm.cons e p))
  | inr a ↦ rw (members_free e es a, members_free e bag a) p
]

passed-Removes :
    (range : CheckedRange) (e : BagEntry) (bag : List BagEntry) (r : Bool × List BagEntry)
    → matches range e ≡ false
    → Removes range bag r
    → Removes range (e ∷ bag) (r.0, e ∷ r.1)
passed-Removes range e bag r a (inl (h, p)) = inl (h, members_passed range e r.1 bag p)
passed-Removes range e bag r a (inr (h, k, p)) =
    inr (h, no_match range e bag a k, ap (λ b. e ∷ b) p)

-- Removing a range takes it out of the bag once, wherever it stands, if it is there; if not, it
-- fails and changes nothing. The range is not the empty one at zero.
pub remove_range-Removes :
    (range : CheckedRange) (bag : List BagEntry)
    → IsRange range
    → Removes range bag (remove_range range bag)
unfolding remove_range
remove_range-Removes range [] h = inr (refl, (unfold holds members in refl), refl)
remove_range-Removes range (e ∷ bag) h = elim (Bool-cases (matches range e)) [
  | inl a ↦
      let t = matches→eq range e a in
      let f : members (record { base = 0; size = 0 } ∷ bag) ≡ members bag =
        members_free _ bag refl in
      rw a (inl (refl, rw (f, t, members_active (entry_of range) bag h) Perm.rfl))
  | inr a ↦
      rw a
        (passed-Removes range e bag (remove_range range bag) a (remove_range-Removes range bag h))
]

matches_refl : (range : CheckedRange) → matches range (entry_of range) ≡ true
matches_refl range = rw (==_refl range.base, ==_refl range.size) refl

holds_first :
    (range : CheckedRange) (e : BagEntry) (es : List BagEntry)
    → matches range e ≡ true
    → holds range (e ∷ es) ≡ true
unfolding holds
holds_first range e es h = rw h refl

holds_later :
    (range : CheckedRange) (e : BagEntry) (es : List BagEntry)
    → holds range es ≡ true
    → holds range (e ∷ es) ≡ true
unfolding holds
holds_later range e es h = ground (arith, h)

inserted_holds :
    (range : CheckedRange) (bag : List BagEntry)
    → IsRange range
    → (insert_range range bag).0 ≡ true
    → holds range (members (insert_range range bag).1) ≡ true
unfolding insert_range
inserted_holds range [] h k = ground (arith, k)
inserted_holds range (e ∷ bag) h k = elim (Bool-cases (entry_is_active e)) [
  | inl a ↦
      let k' : (insert_range range bag).0 ≡ true = rw a at k in
      rw a (
        rw (members_active e (insert_range range bag).1 a) (
          holds_later range e (members (insert_range range bag).1) (inserted_holds range bag h k')))
  | inr a ↦ rw a (
      rw (members_active (entry_of range) bag h)
        (holds_first range (entry_of range) (members bag) (matches_refl range)))
]

-- A range that was inserted can be removed, and then the bag holds what it held.
pub remove_range-insert_range :
    (range : CheckedRange) (bag : List BagEntry)
    → IsRange range
    → bag_count bag < length bag
    → ((remove_range range (insert_range range bag).1).0 ≡ true)
      × Perm (members (remove_range range (insert_range range bag).1).1) (members bag)
remove_range-insert_range range bag h k = elim (insert_range-Inserts range bag h) [
  | inr (_, e, _) ↦ absurd (omega (arith, e, k))
  | inl (i, _, p) ↦ elim (remove_range-Removes range (insert_range range bag).1 h) [
    | inl (r, q) ↦ (r, Perm.cons_inv (Perm.trans q p))
    | inr (_, n, _) ↦ let m = inserted_holds range bag h i in ground (arith, n, m)
  ]
]
