-- ===== src/Ranges/Bag/Tests.antt =====
-- Tests and instances for the address ranges and their bag.
use crashkit.Prelude.{ℕ, ◌^◌, ◌-◌, ◌≡◌, ◌↔◌, refl, some, true, false, List}
use crashkit.Ranges.{CheckedRange, is_valid, contains_value, overlaps_range, less_than}
use crashkit.Ranges.Contains.{overlaps_range_iff}
use crashkit.Ranges.Bag.{
  BagEntry, new_bag, insert_range, remove_range, insert_pointer, remove_pointer, bag_iterator,
  bag_next,
}
use crashkit.Ranges.Bag.Members.{
  entry_of, Inserts, Removes, insert_range-Inserts, remove_range-Removes,
}

abbrev page : CheckedRange
page = record { base = 0x1000; size = 0x1000 }

abbrev inner : CheckedRange
inner = record { base = 0x1800; size = 8 }

-- The last byte of the address space is in no valid range, since the end is not a 64-bit number.
top_is_not_valid : is_valid (record { base = 2 ^ 64 - 1; size = 1 }) ≡ false
top_is_not_valid = refl

less_by_size : less_than page (record { base = 0x1000; size = 0x1001 }) ≡ true
less_by_size = refl

abbrev two : List BagEntry
two = (insert_pointer 0x1800 8 (insert_pointer 0x1000 0x1000 (new_bag 3)).1).1

second_of_two : (bag_next (bag_next (bag_iterator two)).1).0 ≡ some (entry_of inner)
unfolding insert_pointer bag_next
second_of_two = refl

first_removed :
    (bag_next (bag_iterator (remove_pointer 0x1000 0x1000 two).1)).0 ≡ some (entry_of inner)
unfolding insert_pointer remove_pointer bag_next
first_removed = refl

overlaps_range_example :
    (overlaps_range page inner ≡ true)
    ↔ ((v : ℕ) × (contains_value page v ≡ true) × (contains_value inner v ≡ true))
overlaps_range_example = overlaps_range_iff page inner refl refl

insert_range_example : Inserts inner two (insert_range inner two)
insert_range_example = insert_range-Inserts inner two refl

remove_range_example : Removes page two (remove_range page two)
remove_range_example = remove_range-Removes page two refl
