-- ===== src/RingBuffer/Copies.antt =====
-- `ReadBytesFromRingBuffer` and `WriteBytesToRingBuffer` on the bytes that a range shows.
use crashkit.Prelude.{
  take-length-append, ℕ, ◌+◌, ◌-◌, ◌%◌, ◌^◌, ◌≤◌, ◌<◌, ◌≡◌, refl, sym, ap, ◌∙◌, subst, min, true,
  false, none, some, ◌++◌, length, take, drop, arith, ltb, ◌==◌, length-append, length-drop,
  ltb-false, lt→ltb, ==-false,
}
use mathlib.Core.List.{append_assoc}
use native.Mathlib.Nat.{mod-eq_of_lt, mod-add-mod}
use crashkit.Prelude.Bytes.{Bytes}
use crashkit.RingBuffer.{Range, add32, sub32, advance, read_bytes, write_bytes}
use crashkit.RingBuffer.Circular.{rot, length-of_rot, rot_advance, rot_back}
use crashkit.RingBuffer.Splice.{
  read_round, read_round-eq, write_round, write_round-eq, length-write_round, drop-append,
}

-- The range shows these bytes: they stand from its offset on, round the end of the ring. The ring
-- has at most 2 ^ 31 bytes, so that no sum of an offset and a length wraps.
pub record IsView (store : Bytes) (range : Range) (shown : Bytes) : Type 0 where
  pub small : length store ≤ 2 ^ 31
  pub inside : range.offset < length store
  pub size : range.length ≡ length shown
  pub hidden : Bytes
  pub circle : rot range.offset store ≡ shown ++ hidden

pub fits :
    (store : Bytes) (range : Range) (shown : Bytes)
    → IsView store range shown
    → length shown ≤ length store
fits store range shown w = omega (arith, length-of_rot range.offset store shown w.hidden w.circle)

pub add32-small : (a b : ℕ) → a + b < 2 ^ 32 → add32 a b ≡ a + b
add32-small a b h = omega (arith, h)

pub sub32-small : (a b : ℕ) → a < 2 ^ 32 → b ≤ a → sub32 a b ≡ a - b
sub32-small a b h k = omega (arith, h, k)

mod_below : (a s : ℕ) → a < s → a % s < s
mod_below a s h = rw (mod-eq_of_lt h) h

-- Moving a range past the bytes that it shows first.
pub advance-IsView :
    (store : Bytes) (range : Range) (c1 c2 : Bytes)
    → IsView store range (c1 ++ c2)
    → IsView store (advance (length store) (length c1) range) c2
advance-IsView store range c1 c2 w =
    let l = fits store range (c1 ++ c2) w in
    let n = length-append {0} c1 c2 in
    let a : add32 range.offset (length c1) ≡ range.offset + length c1 =
      add32-small range.offset (length c1) (omega (arith, w.small, w.inside, l, n)) in
    record {
      small = w.small;
      inside = rw a (omega (arith, w.inside));
      size =
          sub32-small range.length (length c1) (omega (arith, w.size, l, w.small))
            (omega (arith, w.size, n))
          ∙ omega (arith, w.size, n);
      hidden = w.hidden ++ c1;
      circle = rw a (
          rot_advance range.offset store c1 (c2 ++ w.hidden) w.inside
            (w.circle ∙ append_assoc c1 c2 w.hidden)
          ∙ append_assoc c2 w.hidden c1);
    }

-- A range was moved on within the ring: it shows what is left, and ends where it ended.
pub record IsMovedOn (store : Bytes) (range : Range) (rest : Bytes) (range' : Range) : Type 0 where
  pub view : IsView store range' rest
  pub ending :
      (range'.offset + range'.length) % length store ≡ (range.offset + range.length) % length store

pub advance-IsMovedOn :
    (store : Bytes) (range : Range) (c1 c2 : Bytes)
    → IsView store range (c1 ++ c2)
    → IsMovedOn store range c2 (advance (length store) (length c1) range)
advance-IsMovedOn store range c1 c2 w =
    let l = fits store range (c1 ++ c2) w in
    let n = length-append {0} c1 c2 in
    let a : add32 range.offset (length c1) ≡ range.offset + length c1 =
      add32-small range.offset (length c1) (omega (arith, w.small, w.inside, l, n)) in
    let b : sub32 range.length (length c1) ≡ range.length - length c1 =
      sub32-small range.length (length c1) (omega (arith, w.size, l, w.small))
        (omega (arith, w.size, n)) in
    let c : range.offset + length c1 + (range.length - length c1) ≡ range.offset + range.length =
      omega (arith, w.size, n) in
    record {
      view = advance-IsView store range c1 c2 w;
      ending =
          rw (a, b)
            (mod-add-mod (range.offset + length c1) (length store) (range.length - length c1)
              ∙ ap (λ t. t % length store) c);
    }

pub IsMovedOn-trans :
    (store : Bytes) (range : Range) (shown : Bytes) (range' : Range) (rest : Bytes)
    (range'' : Range)
    → IsMovedOn store range shown range'
    → IsMovedOn store range' rest range''
    → IsMovedOn store range rest range''
IsMovedOn-trans store range shown range' rest range'' v w = record {
  view = w.view;
  ending = w.ending ∙ v.ending;
}

-- Reading the first bytes that a range shows gives them, and the rest is shown.
pub read_bytes-IsView :
    (store : Bytes) (range : Range) (c1 c2 : Bytes)
    → 0 < length c1
    → IsView store range (c1 ++ c2)
    → read_bytes store range (length c1) ≡ some (c1, advance (length store) (length c1) range)
unfolding read_bytes
read_bytes-IsView store range c1 c2 h w =
    let l = fits store range (c1 ++ c2) w in
    let n = length-append {0} c1 c2 in
    let room : sub32 (length store) range.offset ≡ length store - range.offset =
      sub32-small (length store) range.offset (omega (arith, w.small)) (omega (arith, w.inside)) in
    let bytes : read_round range.offset (length c1) store ≡ c1 =
      read_round-eq range.offset (length c1) store w.inside (omega (arith, l, n))
      ∙ ap (take (length c1)) (w.circle ∙ append_assoc c1 c2 w.hidden)
      ∙ take-length-append c1 (c2 ++ w.hidden) in
    let initial = min (length c1) (length store - range.offset) in
    let left : sub32 (length c1) initial ≡ length c1 - initial =
      sub32-small (length c1) initial (omega (arith, l, n, w.small)) (omega arith) in
    let enough : ltb range.length (length c1) ≡ false = ltb-false _ _ (omega (arith, w.size, n)) in
    let some_bytes : (length c1 == 0) ≡ false = ==-false _ _ (omega (arith, h)) in
    rw (enough, some_bytes, room, left)
      (ap (λ b. some (b, advance (length store) (length c1) range)) bytes)

-- A range that shows too little gives nothing.
pub read_bytes_short :
    (store : Bytes) (range : Range) (n : ℕ) → range.length < n → read_bytes store range n ≡ none
unfolding read_bytes
read_bytes_short store range n h = rw (lt→ltb range.length n h) refl

-- The circle after bytes are written behind those that stand first.
write_circle :
    (o p : ℕ) (store shown hidden bytes : Bytes)
    → o < length store
    → p ≡ (o + length shown) % length store
    → rot o store ≡ shown ++ hidden
    → length bytes ≤ length hidden
    → rot o (write_round p bytes store) ≡ (shown ++ bytes) ++ drop (length bytes) hidden
write_circle o p store shown hidden bytes h at e k =
    let l = length-of_rot o store shown hidden e in
    let below : p < length store = omega (arith, at, h) in
    let same = length-write_round p bytes store below (omega (arith, k, l)) in
    let z : length bytes - length hidden ≡ 0 = omega (arith, k) in
    let there : rot p (write_round p bytes store) ≡ (bytes ++ drop (length bytes) hidden) ++ shown =
      write_round-eq p bytes store below (omega (arith, k, l))
      ∙ ap (λ c. bytes ++ drop (length bytes) c)
          (subst (λ q. rot q store ≡ hidden ++ shown) (sym at)
            (rot_advance o store shown hidden h e))
      ∙ ap (λ c. bytes ++ c) (drop-append (length bytes) hidden shown ∙ rw z refl)
      ∙ sym (append_assoc bytes (drop (length bytes) hidden) shown) in
    let at' : p ≡ (o + length shown) % length (write_round p bytes store) =
      at ∙ ap (λ n. (o + length shown) % n) (sym same) in
    rot_back o (write_round p bytes store) shown (bytes ++ drop (length bytes) hidden)
      (omega (arith, same, h))
      (omega (
        arith,
        same,
        l,
        length-append {0} bytes (drop (length bytes) hidden),
        length-drop {0} (length bytes) hidden,
        k,
      ))
      (subst
        (λ q. rot q (write_round p bytes store) ≡ (bytes ++ drop (length bytes) hidden) ++ shown)
        at' there)
    ∙ sym (append_assoc shown bytes (drop (length bytes) hidden))

-- Writing behind the bytes that a range shows, where the write range admits it and there is room.
pub write_bytes-IsView :
    (store : Bytes) (range w : Range) (shown bytes : Bytes)
    → IsView store range shown
    → w.offset ≡ (range.offset + length shown) % length store
    → w.length ≤ length store
    → length bytes ≤ length store - w.length
    → length shown + length bytes ≤ length store
    → (store' : Bytes) × (write_bytes bytes store w
        ≡ (true, store', advance (length store) (length bytes) w))
      × (length store' ≡ length store)
      × IsView store'
          (record { offset = range.offset; length = length shown + length bytes })
          (shown ++ bytes)
unfolding write_bytes
write_bytes-IsView store range w shown bytes v at inside k room =
    let store' = write_round w.offset bytes store in
    let below : w.offset < length store = omega (arith, at, v.inside) in
    let small : length bytes ≤ length store = omega (arith, room) in
    let same = length-write_round w.offset bytes store below small in
    let initial = min (length bytes) (length store - w.offset) in
    let e : sub32 (length store) w.offset ≡ length store - w.offset =
      sub32-small (length store) w.offset (omega (arith, v.small)) (omega (arith, below)) in
    let f : sub32 (length store) w.length ≡ length store - w.length =
      sub32-small (length store) w.length (omega (arith, v.small)) inside in
    let g : ltb (length store - w.length) (length bytes) ≡ false = ltb-false _ _ k in
    (
      store',
      rw (e, f, g) refl,
      same,
      record {
        small = rw same v.small;
        inside = rw same v.inside;
        size = omega (arith, length-append {0} shown bytes);
        hidden = drop (length bytes) v.hidden;
        circle =
            write_circle range.offset w.offset store shown v.hidden bytes v.inside at v.circle
              (omega (arith, room, length-of_rot range.offset store shown v.hidden v.circle));
      },
    )
