-- ===== src/Ranges/Bag.antt =====
-- crashkit/src/main/cpp/crashpad/include/client/simple_address_range_bag.h: a bag of address ranges
-- in a fixed array of entries. Its iterator is a position in the array.
pub mod Members
mod Tests
use crashkit.Prelude.{
  ℕ, zero, suc, ◌+◌, Bool, true, false, not, ◌&&◌, ◌||◌, ◌==◌, if◌then◌else◌, Option, none, some,
  List, [], ◌∷◌, length, replicate, drop,
}
use crashkit.Ranges.{CheckedRange}

-- `TSimpleAddressRangeBag::Entry`
pub record BagEntry : Type 0 where
  pub base : ℕ
  pub size : ℕ

abbrev pub entry_is_active : BagEntry → Bool
entry_is_active e = not (e.base == 0) || not (e.size == 0)

abbrev pub new_bag : ℕ → List BagEntry
new_bag num_entries = replicate num_entries (record { base = 0; size = 0 })

-- The loop of `GetCount`.
pub bag_count_from : ℕ → List BagEntry → ℕ
bag_count_from count [] = count
bag_count_from count (e ∷ bag) =
    let counted = bag_count_from (suc count) bag in
    let skipped = bag_count_from count bag in if entry_is_active e then counted else skipped

pub bag_count : List BagEntry → ℕ
unfolding bag_count_from
bag_count bag = bag_count_from 0 bag

-- `Insert`, of a `CheckedRange`: whether there was space, and the entries.
pub insert_range : CheckedRange → List BagEntry → Bool × List BagEntry
insert_range range [] = (false, [])
insert_range range (e ∷ bag) =
    let (inserted, rest) = insert_range range bag in
    if not (entry_is_active e)
    then (true, record { base = range.base; size = range.size } ∷ bag)
    else (inserted, e ∷ rest)

abbrev matches : CheckedRange → BagEntry → Bool
matches range e = (e.base == range.base) && (e.size == range.size)

-- `Remove`, of a `CheckedRange`: whether it was found, and the entries.
pub remove_range : CheckedRange → List BagEntry → Bool × List BagEntry
remove_range range [] = (false, [])
remove_range range (e ∷ bag) =
    let (removed, rest) = remove_range range bag in
    if matches range e then (true, record { base = 0; size = 0 } ∷ bag) else (removed, e ∷ rest)

-- The overloads on an address and a size.
pub insert_pointer : ℕ → ℕ → List BagEntry → Bool × List BagEntry
unfolding insert_range
insert_pointer base size bag = insert_range (record { base = base; size = size }) bag

pub remove_pointer : ℕ → ℕ → List BagEntry → Bool × List BagEntry
unfolding remove_range
remove_pointer base size bag = remove_range (record { base = base; size = size }) bag

-- `Iterator`
pub record BagIterator : Type 0 where
  pub bag : List BagEntry
  pub current : ℕ

abbrev pub bag_iterator : List BagEntry → BagIterator
bag_iterator bag = record { bag = bag; current = 0 }

-- The loop of `Next`, on the entries from the current one on.
pub bag_next_from : List BagEntry → ℕ → Option BagEntry × ℕ
bag_next_from [] current = (none, current)
bag_next_from (e ∷ rest) current =
    let later = bag_next_from rest (suc current) in
    if entry_is_active e then (some e, suc current) else later

pub bag_next : BagIterator → Option BagEntry × BagIterator
unfolding bag_next_from
bag_next it =
    let (entry, current) = bag_next_from (drop it.current it.bag) it.current in
    (entry, record it { current = current })
