-- ===== src/Ranges/Contains.antt =====
-- The tests of `CheckedRange`, by the values that a range contains.
use crashkit.Prelude.{ℕ, ◌+◌, ◌-◌, ◌≤◌, ◌<◌, ◌≡◌, ◌↔◌, true, arith}
use Prim.Native.Nat.{max}
use crashkit.Ranges.{CheckedRange, end_of, is_valid, contains_value, contains_range, overlaps_range}

-- The end of a valid range does not wrap.
end_of-valid : (r : CheckedRange) → is_valid r ≡ true → end_of r ≡ r.base + r.size
end_of-valid r h = ground arith

pub contains_value_iff :
    (r : CheckedRange) (v : ℕ)
    → is_valid r ≡ true
    → (contains_value r v ≡ true) ↔ ((r.base ≤ v) × (v < r.base + r.size))
contains_value_iff r v h = ground (arith, end_of-valid r h)

contains_range_lem :
    (r that : CheckedRange)
    → is_valid r ≡ true
    → is_valid that ≡ true
    → (contains_range r that ≡ true)
      ↔ ((r.base ≤ that.base) × (that.base + that.size ≤ r.base + r.size))
contains_range_lem r that h k = ground (arith, end_of-valid r h, end_of-valid that k)

overlaps_range_lem :
    (r that : CheckedRange)
    → is_valid r ≡ true
    → is_valid that ≡ true
    → (overlaps_range r that ≡ true) ↔ (
        (0 < r.size)
        × (0 < that.size)
        × (r.base < that.base + that.size)
        × (that.base < r.base + r.size))
overlaps_range_lem r that h k = ground (arith, end_of-valid r h, end_of-valid that k)

contained-contains :
    (r that : CheckedRange) (v : ℕ)
    → contains_range r that ≡ true
    → contains_value that v ≡ true
    → contains_value r v ≡ true
contained-contains r that v c d = ground arith

-- A valid range contains another that is not empty exactly if it contains all its values.
pub contains_range_iff :
    (r that : CheckedRange)
    → is_valid r ≡ true
    → is_valid that ≡ true
    → 0 < that.size
    → (contains_range r that ≡ true)
      ↔ ((v : ℕ) → contains_value that v ≡ true → contains_value r v ≡ true)
contains_range_iff r that h k l = (
  (λ c v d. contained-contains r that v c d),
  (λ c.
      let top = that.base + that.size - 1 in
      let first =
        c that.base ((contains_value_iff that that.base k).1 (omega arith, omega (arith, l))) in
      let last = c top ((contains_value_iff that top k).1 (omega (arith, l), omega (arith, l))) in
      let (a, _) = (contains_value_iff r that.base h).0 first in
      let (_, b) = (contains_value_iff r top h).0 last in
      (contains_range_lem r that h k).1 (a, omega (arith, b, l))),
)

-- Two valid ranges overlap exactly if some value is in both.
pub overlaps_range_iff :
    (r that : CheckedRange)
    → is_valid r ≡ true
    → is_valid that ≡ true
    → (overlaps_range r that ≡ true)
      ↔ ((v : ℕ) × (contains_value r v ≡ true) × (contains_value that v ≡ true))
overlaps_range_iff r that h k = (
  (λ c.
      let (a, b, d, e) = (overlaps_range_lem r that h k).0 c in
      let v = max r.base that.base in
      (
        v,
        (contains_value_iff r v h).1 (omega arith, omega (arith, a, e)),
        (contains_value_iff that v k).1 (omega arith, omega (arith, b, d)),
      )),
  (λ p.
      let (v, c, d) = p in
      let (a, a') = (contains_value_iff r v h).0 c in
      let (b, b') = (contains_value_iff that v k).0 d in
      (overlaps_range_lem r that h k).1
        (omega (arith, a, a'), omega (arith, b, b'), omega (arith, a, b'), omega (arith, a', b))),
)
