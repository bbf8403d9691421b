-- ===== src/RingBuffer/Varint/Write.antt =====
-- `WriteBase128VarintToRingBuffer` and `WriteBytesToRingBuffer` behind the bytes that stand in the
-- ring.
use Prim.Native.Nat.{bit_and, bit_or}
use crashkit.Prelude.{
  ℕ, zero, suc, ◌+◌, ◌-◌, ◌/◌, ◌%◌, ◌^◌, ◌≤◌, ◌<◌, ◌≡◌, refl, sym, ap, ◌∙◌, subst, Bool, true,
  false, Option, none, some, [], ◌∷◌, ◌++◌, length, arith, length-append, ltb-false, lt→ltb,
}
use crashkit.Prelude.Bytes.{Bytes}
use crashkit.Prelude.Bits.{low_seven, with_top_bit}
use native.Mathlib.Decide.{dec_lt}
use native.Mathlib.Nat.{mod-add-mod, mod-eq_of_lt}
use mathlib.Core.List.{append_assoc}
use crashkit.RingBuffer.{Range, add32, sub32, advance, write_bytes, write_varint_from, write_varint}
use crashkit.RingBuffer.Copies.{IsView, add32-small, sub32-small, write_bytes-IsView}
use crashkit.RingBuffer.Varint.{groups, encoding}

high_group : (value : ℕ) → bit_or (bit_and (value % 2 ^ 8) 0x7f) 0x80 ≡ value % 128 + 128
high_group value =
    let low : bit_and (value % 2 ^ 8) 0x7f ≡ value % 128 =
      low_seven (value % 2 ^ 8) (omega arith) ∙ omega arith in
    ap (λ b. bit_or b 0x80) low ∙ with_top_bit (value % 128) (omega arith)

-- A range of these bytes from this offset on.
abbrev pub holding : ℕ → Bytes → Range
holding o shown = record { offset = o; length = length shown }

-- The range left to write has `n` bytes, which follow those that are shown and have room.
pub record IsCursor (store : Bytes) (o : ℕ) (shown : Bytes) (w : Range) (n : ℕ) : Type 0 where
  pub at : w.offset ≡ (o + length shown) % length store
  pub covers : w.length ≡ n
  pub room : length shown + n ≤ length store

-- The bytes of the ring and the range left to write, after writes that leave these bytes shown and
-- `n` bytes to write.
pub record IsWritten (store : Bytes) (o : ℕ) (shown : Bytes) (n : ℕ) (store' : Bytes) (w : Range)
    : Type 0 where
  pub same : length store' ≡ length store
  pub view : IsView store' (holding o shown) shown
  pub cursor : IsCursor store' o shown w n

pub write_chunk :
    (store : Bytes) (o : ℕ) (shown : Bytes) (w : Range) (bytes : Bytes) (n : ℕ)
    → IsView store (holding o shown) shown
    → IsCursor store o shown w (length bytes + n)
    → length bytes ≤ length store - (length bytes + n)
    → (store' : Bytes) × (w' : Range) × (write_bytes bytes store w ≡ (true, store', w'))
      × IsWritten store o (shown ++ bytes) n store' w'
write_chunk store o shown w bytes n v c h =
    let (store', e, same, v') =
      write_bytes-IsView store (holding o shown) w shown bytes v c.at
        (omega (arith, c.covers, c.room)) (omega (arith, h, c.covers)) (omega (arith, c.room)) in
    let total = length-append {0} shown bytes in
    let below : w.offset < length store = omega (arith, c.at, v.inside) in
    let a : add32 w.offset (length bytes) ≡ w.offset + length bytes =
      add32-small w.offset (length bytes) (omega (arith, below, v.small, c.room)) in
    let b : sub32 w.length (length bytes) ≡ w.length - length bytes =
      sub32-small w.length (length bytes) (omega (arith, c.covers, c.room, v.small))
        (omega (arith, c.covers)) in
    let d : o + length shown + length bytes ≡ o + length (shown ++ bytes) = omega (arith, total) in
    (
      store',
      advance (length store) (length bytes) w,
      e,
      record {
        same = same;
        view = record {
          small = v'.small;
          inside = v'.inside;
          size = refl;
          hidden = v'.hidden;
          circle = v'.circle;
        };
        cursor = record {
          at =
              rw (a, c.at, same)
                (mod-add-mod (o + length shown) (length store) (length bytes)
                  ∙ ap (λ t. t % length store) d);
          covers = b ∙ omega (arith, c.covers);
          room = omega (arith, c.room, total, same);
        };
      },
    )

high_byte :
    (k value len : ℕ) (store store' : Bytes) (w w' : Range)
    → 128 ≤ value
    → write_bytes ((value % 128 + 128) ∷ []) store w ≡ (true, store', w')
    → write_varint_from (suc k) value len store w
      ≡ write_varint_from k (value / 128) (len + 1) store' w'
unfolding write_varint_from
high_byte k value len store store' w w' h e =
    let e' = ap (λ b. write_bytes (b ∷ []) store w) (high_group value) ∙ e in
    let go = λ (x : Bool × Bytes × Range). elim x.0 as (λ _. Option ℕ × Bytes × Range) [
      | true ↦ write_varint_from k (value / 128) (len + 1) x.1 x.2
      | false ↦ (none, x.1, x.2)
    ] in
    rw (write_varint_from, lt→ltb 0x7f value (omega (arith, h))) (ap go e')

low_byte :
    (k value len : ℕ) (store store' : Bytes) (w w' : Range)
    → value < 128
    → write_bytes (value ∷ []) store w ≡ (true, store', w')
    → write_varint_from (suc k) value len store w ≡ (some len, store', w')
unfolding write_varint_from
low_byte k value len store store' w w' h e =
    let l : value % 2 ^ 8 ≡ value = mod-eq_of_lt (omega (arith, h)) in
    rw (write_varint_from, ltb-false 0x7f value (omega (arith, h))) (rw l (rw e refl))

-- What writing a value leaves.
abbrev IsWrittenVarint : Bytes → ℕ → Bytes → ℕ → Option ℕ × Bytes × Range → Type 0
IsWrittenVarint store o shown n r =
    (len : ℕ) × (store' : Bytes) × (w : Range) × (r ≡ (some len, store', w))
    × IsWritten store o shown n store' w

write_groups :
    (k value len : ℕ) (store : Bytes) (o : ℕ) (shown : Bytes) (w : Range) (n : ℕ)
    → value < 128 ^ suc k
    → IsView store (holding o shown) shown
    → IsCursor store o shown w (length (groups k value) + n)
    → length (groups k value) + n < length store
    → IsWrittenVarint store o
        (shown ++ groups k value)
        n
        (write_varint_from (suc k) value len store w)
unfolding groups
write_groups zero value len store o shown w n h v c r =
    let (store', w', e, d) = write_chunk store o shown w (value ∷ []) n v c (omega (arith, r)) in
    (len, store', w', low_byte zero value len store store' w w' (omega (arith, h)) e, d)
write_groups (suc k) value len store o shown w n h v c r = elim (dec_lt value 128) [
  | yes l ↦
      let g : groups (suc k) value ≡ value ∷ [] =
        rw (ltb-false 0x7f value (omega (arith, l))) refl in
      let c' = subst (λ b. IsCursor store o shown w (length b + n)) g c in
      let (store', w', e, d) =
        write_chunk store o shown w (value ∷ []) n v c'
          (omega (arith, subst (λ b. length b + n < length store) g r)) in
      (
        len,
        store',
        w',
        low_byte (suc k) value len store store' w w' l e,
        subst (λ b. IsWritten store o (shown ++ b) n store' w') (sym g) d,
      )
  | no l ↦
      let rest = groups k (value / 128) in
      let first = value % 128 + 128 in
      let g : groups (suc k) value ≡ first ∷ rest =
        rw (lt→ltb 0x7f value (omega (arith, l))) refl in
      let t : suc (length rest) + n ≡ 1 + (length rest + n) = omega arith in
      let c' =
        subst (IsCursor store o shown w) t
          (subst (λ b. IsCursor store o shown w (length b + n)) g c) in
      let r' = subst (λ b. length b + n < length store) g r in
      let (store', w', e, d) =
        write_chunk store o shown w (first ∷ []) (length rest + n) v c' (omega (arith, r')) in
      let (len', store'', w'', e', d') =
        write_groups k (value / 128) (len + 1) store' o (shown ++ (first ∷ [])) w' n
          (omega (arith, h)) d.view d.cursor (omega (arith, r', d.same)) in
      (
        len',
        store'',
        w'',
        high_byte (suc k) value len store store' w w' (omega (arith, l)) e ∙ e',
        subst (λ b. IsWritten store o (shown ++ b) n store'' w'') (sym g)
            (subst (λ b. IsWritten store o b n store'' w'') (append_assoc shown (first ∷ []) rest)
              (record { same = d'.same ∙ d.same; view = d'.view; cursor = d'.cursor })),
      )
]

-- Writing a value puts its encoding behind the bytes that are shown.
pub write_varint-encoding :
    (value : ℕ) (store : Bytes) (o : ℕ) (shown : Bytes) (w : Range) (n : ℕ)
    → value < 2 ^ 32
    → IsView store (holding o shown) shown
    → IsCursor store o shown w (length (encoding value) + n)
    → length (encoding value) + n < length store
    → IsWrittenVarint store o (shown ++ encoding value) n (write_varint value store w)
unfolding write_varint
write_varint-encoding value store o shown w n h =
    write_groups 5 value 1 store o shown w n (omega (arith, h))
