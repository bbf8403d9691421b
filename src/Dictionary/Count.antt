-- ===== src/Dictionary/Count.antt =====
-- Counting and walking the entries in use.
use crashkit.Prelude.{ℕ, ◌+◌, ◌≤◌, ◌≡◌, refl, ◌∙◌, List, [], ◌∷◌, arith, ltb, if◌then◌else◌, length}
use crashkit.Dictionary.{Entry, is_active, count_from, get_count}
use crashkit.Dictionary.Slots.{inactive, any}

-- The entries in use, in order.
unfoldable pub actives : List Entry → List Entry
actives [] = []
actives (e ∷ d) = let rest = actives d in if is_active e then e ∷ rest else rest

count_from-eq : (n : ℕ) (d : List Entry) → count_from n d ≡ n + length (actives d)
unfolding count_from actives
count_from-eq n [] = omega arith
count_from-eq n (e ∷ d) = ground (arith, count_from-eq (n + 1) d, count_from-eq n d)

-- `GetCount` is the number of entries in use.
pub get_count-eq : (d : List Entry) → get_count d ≡ length (actives d)
unfolding get_count
get_count-eq d = count_from-eq 0 d ∙ (omega arith)

pub length-actives-le : (d : List Entry) → length (actives d) ≤ length d
unfolding actives
length-actives-le [] = omega arith
length-actives-le (e ∷ d) = ground (arith, length-actives-le d)

inactive_iff_lt : (d : List Entry) → any inactive d ≡ ltb (length (actives d)) (length d)
unfolding actives
inactive_iff_lt [] = refl
inactive_iff_lt (e ∷ d) = ground (arith, inactive_iff_lt d, length-actives-le d)

-- The count never passes the number of entries, and an entry is free exactly when it is below.
pub get_count_bounds :
    (d : List Entry) → (get_count d ≤ length d) × (any inactive d ≡ ltb (get_count d) (length d))
get_count_bounds d = rw get_count-eq (length-actives-le d, inactive_iff_lt d)
