-- ===== src/RingBuffer/Varint.antt =====
-- The encoding in base 128 that the ring buffer delimits its items by, and
-- `Base128VarintEncodedLength`.
pub mod Read
pub mod Write
use Prim.Native.Nat.{bit_and, bit_or}
use crashkit.Prelude.{
  ℕ, zero, suc, ◌+◌, ◌-◌, ◌*◌, ◌/◌, ◌%◌, ◌^◌, ◌≤◌, ◌<◌, ◌≡◌, refl, sym, ap, ◌∙◌, subst, min, Bool,
  true, false, Option, none, some, List, [], ◌∷◌, ◌++◌, length, arith, ltb, leb, ◌==◌,
  if◌then◌else◌, length-append, ltb-false, lt→ltb,
}
use crashkit.Prelude.Bytes.{Bytes}
use crashkit.Prelude.Bits.{low_seven, top_bit, with_top_bit, or_shifted}
use native.Mathlib.Numerals.{towards_suc}
use native.Mathlib.Decide.{dec_lt}
use native.Mathlib.Nat.{mod-add-div', mul-div_cancel, mul-le-mul_right, mod-eq_of_lt}
use mathlib.Core.List.{append_assoc}
use crashkit.RingBuffer.{
  Range, sub32, advance, check_lsh, varint_round, encoded_length, encoded_length_from, read_bytes,
  read_varint_from, read_varint, write_bytes, write_varint_from, write_varint,
}
use crashkit.RingBuffer.Copies.{
  IsView, IsMovedOn, advance-IsMovedOn, IsMovedOn-trans, read_bytes-IsView, write_bytes-IsView,
}

-- The base-128 digits of a value, the lowest first, each but the last with the top bit set.
unfoldable pub groups : ℕ → ℕ → Bytes
groups zero value = value ∷ []
groups (suc k) value =
    let rest = groups k (value / 128) in
    if ltb 0x7f value then (value % 128 + 128) ∷ rest else value ∷ []

abbrev pub encoding : ℕ → Bytes
encoding value = groups 5 value

pub length-groups : (k value : ℕ) → 0 < length (groups k value)
unfolding groups
length-groups zero value = omega arith
length-groups (suc k) value = ground arith

pub length-groups-le : (k value : ℕ) → length (groups k value) ≤ suc k
unfolding groups
length-groups-le zero value = omega arith
length-groups-le (suc k) value = ground (arith, length-groups-le k (value / 128))

pub length-encoding_small : (value : ℕ) → value < 128 → length (encoding value) ≡ 1
unfolding groups
length-encoding_small value h = ground arith

encoded_length_from-eq :
    (k value n : ℕ) → suc (encoded_length_from k value n) ≡ n + length (groups k value)
unfolding groups encoded_length_from
encoded_length_from-eq zero value n = omega arith
encoded_length_from-eq (suc k) value n =
    ground (arith, encoded_length_from-eq k (value / 128) (n + 1))

-- `Base128VarintEncodedLength` is the number of bytes.
pub encoded_length-eq : (value : ℕ) → encoded_length value ≡ length (encoding value)
unfolding encoded_length
encoded_length-eq value = omega (arith, encoded_length_from-eq 5 value 1)
