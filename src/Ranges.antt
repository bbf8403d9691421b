-- ===== src/Ranges.antt =====
-- crashkit/src/main/cpp/crashpad/include/util/numeric/checked_range.h: `CheckedRange`, with 64-bit
-- bases and sizes, as client/simple_address_range_bag.h has it.
pub mod Contains
pub mod Bag
use crashkit.Prelude.{
  ℕ, ◌+◌, ◌%◌, ◌^◌, ◌<◌, Bool, true, false, not, ◌&&◌, ◌==◌, ltb, leb, if◌then◌else◌,
}

pub record CheckedRange : Type 0 where
  pub base : ℕ
  pub size : ℕ

-- `SetRange`, which the constructor calls.
abbrev pub set_range : ℕ → ℕ → CheckedRange → CheckedRange
set_range base size range = record range { base = base; size = size }

abbrev pub end_of : CheckedRange → ℕ
end_of range = (range.base + range.size) % 2 ^ 64

-- `IsValid`: the checked sum of base and size fits into 64 bits.
abbrev pub is_valid : CheckedRange → Bool
is_valid range = ltb (range.base + range.size) (2 ^ 64)

abbrev pub contains_value : CheckedRange → ℕ → Bool
contains_value range value = leb range.base value && ltb value (end_of range)

abbrev pub contains_range : CheckedRange → CheckedRange → Bool
contains_range range that = leb range.base that.base && leb (end_of that) (end_of range)

abbrev pub overlaps_range : CheckedRange → CheckedRange → Bool
overlaps_range range that =
    if range.size == 0
    then false
    else if that.size == 0
    then false
    else ltb range.base (end_of that) && ltb that.base (end_of range)

-- `operator<`: `std::tie` compares the bases first.
abbrev pub less_than : CheckedRange → CheckedRange → Bool
less_than range other =
    if ltb range.base other.base
    then true
    else if ltb other.base range.base
    then false
    else ltb range.size other.size
