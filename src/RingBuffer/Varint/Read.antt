-- ===== src/RingBuffer/Varint/Read.antt =====
-- `ReadBase128VarintFromRingBuffer` on the bytes that a range shows.
use Prim.Native.Nat.{bit_and, bit_or}
use crashkit.Prelude.{
  ℕ, zero, suc, ◌+◌, ◌*◌, ◌/◌, ◌%◌, ◌^◌, ◌≤◌, ◌<◌, ◌≡◌, refl, sym, ap, ◌∙◌, subst, Bool, true,
  false, Option, none, some, [], ◌∷◌, ◌++◌, length, arith, ltb, ◌==◌, ltb-false, lt→ltb,
}
use crashkit.Prelude.Bytes.{Bytes}
use crashkit.Prelude.Bits.{low_seven, top_bit, or_shifted}
use native.Mathlib.Numerals.{towards_suc}
use native.Mathlib.Decide.{dec_lt}
use native.Mathlib.Nat.{mod-add-div', mul-div_cancel, mul-le-mul_right, mod-eq_of_lt}
use crashkit.RingBuffer.{
  Range, advance, check_lsh, varint_round, read_bytes, read_varint_from, read_varint,
}
use crashkit.RingBuffer.Copies.{
  IsView, IsMovedOn, advance-IsMovedOn, IsMovedOn-trans, read_bytes-IsView, read_bytes_short,
}
use crashkit.RingBuffer.Varint.{groups, encoding}

scaled : (value p : ℕ) → value % 128 * p + value / 128 * (128 * p) ≡ value * p
scaled value p = omega (arith, ap (λ (t : ℕ). t * p) (mod-add-div' value 128))

next_power : (i : ℕ) → 2 ^ ((i + 1) * 7) ≡ 128 * 2 ^ (i * 7)
next_power i =
    let e : (i + 1) * 7 ≡ i * 7 + 7 = omega arith in
    ap (λ (n : ℕ). 2 ^ n) e ∙ simp towards_suc (omega arith)

check_lsh-fits :
    (g shift : ℕ)
    → shift < 32
    → 0 < 2 ^ shift
    → g * 2 ^ shift < 2 ^ 32
    → check_lsh g (shift % 2 ^ 32) ≡ some (g * 2 ^ shift)
check_lsh-fits g shift h k l =
    let a : shift % 2 ^ 32 ≡ shift = mod-eq_of_lt (omega (arith, h)) in
    let b : g * 2 ^ shift % 2 ^ 32 ≡ g * 2 ^ shift = mod-eq_of_lt l in
    let c : g * 2 ^ shift / 2 ^ shift ≡ g = mul-div_cancel g k in rw (a, b, c) (ground arith)

-- One byte of a well-formed value: its digit is put above the result, and its top bit says whether
-- another byte follows.
round_digit :
    (byte result i : ℕ)
    → byte < 256
    → i ≤ 4
    → result < 2 ^ (i * 7)
    → byte % 128 * 2 ^ (i * 7) < 2 ^ 32
    → varint_round byte result i ≡ some (result + byte % 128 * 2 ^ (i * 7), ltb 0x7f byte)
unfolding varint_round
round_digit byte result i h k l m =
    let e = check_lsh-fits (byte % 128) (i * 7) (omega (arith, k)) (omega (arith, l)) m in
    let t : (byte / 128 * 128 == 128) ≡ ltb 0x7f byte = ground arith in
    let after = λ (o : Option ℕ). elim o as (λ _. Option (ℕ × Bool)) [
      | none ↦ none
      | some bits ↦ some (bit_or result bits, bit_and byte 0x80 == 0x80)
    ] in
    ap (λ g. after (check_lsh g (i * 7 % 2 ^ 32))) (low_seven byte h)
    ∙ ap after e
    ∙ ap (λ r. some (r, bit_and byte 0x80 == 0x80)) (or_shifted (i * 7) result (byte % 128) l)
    ∙ ap (λ b. some (result + byte % 128 * 2 ^ (i * 7), b))
        (ap (λ b. b == 0x80) (top_bit byte h) ∙ t)

read_step :
    (n : ℕ) (store : Bytes) (range range' : Range) (byte result i result' : ℕ) (more : Bool)
    → read_bytes store range 1 ≡ some (byte ∷ [], range')
    → varint_round byte result i ≡ some (result', more)
    → read_varint_from (suc n) store range result i ≡ (elim more as (λ _. Option (ℕ × ℕ) × Range) [
      | true ↦ read_varint_from n store range' result' (i + 1)
      | false ↦ (some (result', i + 1), range')
    ])
unfolding read_varint_from
read_step n store range range' byte result i result' more e r = rw (read_varint_from, e) (rw r refl)

first_byte :
    (store : Bytes) (range : Range) (byte : ℕ) (rest : Bytes)
    → IsView store range (byte ∷ rest)
    → (range' : Range) × (read_bytes store range 1 ≡ some (byte ∷ [], range'))
      × IsMovedOn store range rest range'
first_byte store range byte rest v = (
  advance (length store) 1 range,
  read_bytes-IsView store range (byte ∷ []) rest (omega arith) v,
  advance-IsMovedOn store range (byte ∷ []) rest v,
)

-- What reading a value gives.
abbrev IsRead : Bytes → Range → Bytes → ℕ → ℕ → Option (ℕ × ℕ) × Range → Type 0
IsRead store range rest value n read =
    (range' : Range) × (read ≡ (some (value, n), range')) × IsMovedOn store range rest range'

last_digit-IsRead :
    (n : ℕ) (store : Bytes) (range : Range) (rest : Bytes) (value result i : ℕ)
    → value < 128
    → i ≤ 4
    → result < 2 ^ (i * 7)
    → result + value * 2 ^ (i * 7) < 2 ^ 32
    → IsView store range (value ∷ rest)
    → IsRead store range rest
        (result + value * 2 ^ (i * 7))
        (i + 1)
        (read_varint_from (suc n) store range result i)
last_digit-IsRead n store range rest value result i h k l m v =
    let (range', e, moved) = first_byte store range value rest v in
    let low : value % 128 ≡ value = mod-eq_of_lt h in
    let r = round_digit value result i (omega (arith, h)) k l (rw low (omega (arith, m))) in
    let last : ltb 0x7f value ≡ false = ground arith in
    let s = read_step n store range range' value result i _ _ e r in
    (range', s ∙ rw (last, low) refl, moved)

low_at_most : (value : ℕ) → value % 128 ≤ 127
low_at_most value = omega arith

below_fifth :
    (value result i : ℕ) → 128 ≤ value → i ≤ 4 → result + value * 2 ^ (i * 7) < 2 ^ 32 → i + 1 ≤ 4
below_fifth value result i h k m = elim (dec_lt i 4) [
  | yes l ↦ omega (arith, l)
  | no l ↦
      let e : i ≡ 4 = omega (arith, k, l) in
      absurd (omega (arith, h, subst (λ j. result + value * 2 ^ (j * 7) < 2 ^ 32) e m))
]

more_digits-IsRead :
    (n : ℕ) (store : Bytes) (range : Range) (shown rest : Bytes) (value result i len : ℕ)
    → 128 ≤ value
    → i ≤ 4
    → result < 2 ^ (i * 7)
    → result + value * 2 ^ (i * 7) < 2 ^ 32
    → IsView store range ((value % 128 + 128) ∷ shown)
    → ((range' : Range)
        → IsView store range' shown
        → i + 1 ≤ 4
        → result + value % 128 * 2 ^ (i * 7) < 2 ^ ((i + 1) * 7)
        → IsRead store range' rest
            (result + value * 2 ^ (i * 7))
            len
            (read_varint_from n store range' (result + value % 128 * 2 ^ (i * 7)) (i + 1)))
    → IsRead store range rest
        (result + value * 2 ^ (i * 7))
        len
        (read_varint_from (suc n) store range result i)
more_digits-IsRead n store range shown rest value result i len h k l m v next =
    let (range', e, moved) = first_byte store range (value % 128 + 128) shown v in
    let low : (value % 128 + 128) % 128 ≡ value % 128 = omega arith in
    let p = scaled value (2 ^ (i * 7)) in
    let r =
      round_digit (value % 128 + 128) result i (omega arith) k l (rw low (omega (arith, m, p))) in
    let on : ltb 0x7f (value % 128 + 128) ≡ true = ground arith in
    let r' : varint_round (value % 128 + 128) result i
        ≡ some (result + value % 128 * 2 ^ (i * 7), true) =
      r ∙ rw (low, on) refl in
    let s = read_step n store range range' (value % 128 + 128) result i _ true e r' in
    let below : i + 1 ≤ 4 = below_fifth value result i h k m in
    let bound : result + value % 128 * 2 ^ (i * 7) < 2 ^ ((i + 1) * 7) =
      omega (arith, l, next_power i, mul-le-mul_right (2 ^ (i * 7)) (low_at_most value)) in
    let (range'', t, moved') = next range' moved.view below bound in
    (range'', s ∙ t, IsMovedOn-trans store range shown range' rest range'' moved moved')

digits-IsRead :
    (k : ℕ) (store : Bytes) (range : Range) (rest : Bytes) (value result i : ℕ)
    → value < 128 ^ suc k
    → i ≤ 4
    → result < 2 ^ (i * 7)
    → result + value * 2 ^ (i * 7) < 2 ^ 32
    → IsView store range (groups k value ++ rest)
    → IsRead store range rest
        (result + value * 2 ^ (i * 7))
        (i + length (groups k value))
        (read_varint_from (suc k) store range result i)
unfolding groups
digits-IsRead zero store range rest value result i h a b c v =
    last_digit-IsRead zero store range rest value result i (omega (arith, h)) a b c v
digits-IsRead (suc k) store range rest value result i h a b c v = elim (dec_lt value 128) [
  | yes l ↦
      let e : groups (suc k) value ≡ value ∷ [] =
        rw (ltb-false 0x7f value (omega (arith, l))) refl in
      subst
        (λ g.
          IsRead store range rest (result + value * 2 ^ (i * 7)) (i + length g)
            (read_varint_from (suc (suc k)) store range result i))
        (sym e)
        (last_digit-IsRead (suc k) store range rest value result i l a b c
          (subst (λ g. IsView store range (g ++ rest)) e v))
  | no l ↦
      let e : groups (suc k) value ≡ (value % 128 + 128) ∷ groups k (value / 128) =
        rw (lt→ltb 0x7f value (omega (arith, l))) refl in
      let total : result + value % 128 * 2 ^ (i * 7) + value / 128 * 2 ^ ((i + 1) * 7)
          ≡ result + value * 2 ^ (i * 7) =
        omega (arith, ap (λ (t : ℕ). value / 128 * t) (next_power i), scaled value (2 ^ (i * 7))) in
      let len : i + 1 + length (groups k (value / 128))
          ≡ i + suc (length (groups k (value / 128))) =
        omega arith in
      subst
        (λ g.
          IsRead store range rest (result + value * 2 ^ (i * 7)) (i + length g)
            (read_varint_from (suc (suc k)) store range result i))
        (sym e)
        (more_digits-IsRead (suc k) store range (groups k (value / 128) ++ rest) rest value result i
          (i + suc (length (groups k (value / 128)))) (omega (arith, l)) a b c
          (subst (λ g. IsView store range (g ++ rest)) e v)
          (λ range' v' a' b'.
            subst
              (λ t. IsRead store range' rest t (i + suc (length (groups k (value / 128)))) (
                read_varint_from (suc k) store range' (result + value % 128 * 2 ^ (i * 7)) (i + 1)))
              total
              (subst
                (λ n.
                  IsRead store range' rest
                    (result + value % 128 * 2 ^ (i * 7) + value / 128 * 2 ^ ((i + 1) * 7)) n
                    (read_varint_from (suc k) store range' (result + value % 128 * 2 ^ (i * 7))
                      (i + 1)))
                len
                (digits-IsRead k store range' rest (value / 128)
                  (result + value % 128 * 2 ^ (i * 7)) (i + 1) (omega (arith, h)) a' b'
                  (omega (arith, c, total)) v'))))
]

-- Reading an encoded 32-bit value, wherever it stands in the ring, gives it with the length of its
-- encoding, and moves the range past it.
pub read_varint-encoding :
    (store : Bytes) (range : Range) (rest : Bytes) (value : ℕ)
    → value < 2 ^ 32
    → IsView store range (encoding value ++ rest)
    → (range' : Range) × (read_varint store range ≡ (some (value, length (encoding value)), range'))
      × IsMovedOn store range rest range'
unfolding read_varint
read_varint-encoding store range rest value h v =
    let (range', e, moved) =
      digits-IsRead 5 store range rest value 0 0 (omega (arith, h)) (omega arith) (omega arith)
        (omega (arith, h)) v in
    let t : 0 + value * 2 ^ (0 * 7) ≡ value = omega arith in
    let n : 0 + length (encoding value) ≡ length (encoding value) = omega arith in
    (range', e ∙ rw (t, n) refl, moved)

-- A range that is empty has no value.
pub read_varint_short :
    (store : Bytes) (range : Range) → range.length ≡ 0 → read_varint store range ≡ (none, range)
unfolding read_varint read_varint_from
read_varint_short store range h =
    let e = read_bytes_short store range 1 (omega (arith, h)) in rw (read_varint_from, e) refl
