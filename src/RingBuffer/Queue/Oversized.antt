-- ===== src/RingBuffer/Queue/Oversized.antt =====
-- What `Push` does to a message that fits into the ring but takes more than half of it: the check of
-- `WriteBytesToRingBuffer` refuses to write it, and `Push` does not look at its result.
use crashkit.Prelude.{
  ℕ, suc, ◌+◌, ◌-◌, ◌*◌, ◌%◌, ◌^◌, ◌≤◌, ◌<◌, ◌≡◌, refl, sym, ap, ◌∙◌, subst, Bool, true, false,
  Option, some, List, length, arith, lt→ltb,
}
use crashkit.Prelude.Bytes.{Bytes}
use crashkit.RingBuffer.{
  Range, Writer, sub32, push, make_room, write_bytes, write_varint, write_item,
}
use crashkit.RingBuffer.Copies.{IsView, fits, sub32-small}
use crashkit.RingBuffer.Varint.{encoding}
use crashkit.RingBuffer.Varint.Write.{holding, IsCursor, write_varint-encoding}
use crashkit.RingBuffer.Queue.{stored, weight, fit, length-le, fit_room}
use crashkit.RingBuffer.Queue.Room.{make_room-fit}
use crashkit.RingBuffer.Queue.Writer.{IsRing, written, push_room}

-- A write range that leaves less free than the bytes take refuses them.
write_bytes_refused :
    (bytes store : Bytes) (w : Range)
    → length store < 2 ^ 32
    → w.length ≤ length store
    → length store < w.length + length bytes
    → write_bytes bytes store w ≡ (false, store, w)
unfolding write_bytes
write_bytes_refused bytes store w h k l =
    let e : sub32 (length store) w.length ≡ length store - w.length =
      sub32-small (length store) w.length h k in
    rw (e, lt→ltb (length store - w.length) (length bytes) (omega (arith, l, k))) refl

write_item_refused :
    (m : Bytes) (needed : ℕ) (readable : Range) (w : Writer) (n : ℕ) (s1 : Bytes) (w1 : Range)
    → write_varint (length m) w.ring.bytes (record { offset = w.write_offset; length = needed })
      ≡ (some n, s1, w1)
    → write_bytes m s1 w1 ≡ (false, s1, w1)
    → write_item m needed readable w ≡ written needed readable s1 w1
unfolding write_item
write_item_refused m needed readable w n s1 w1 e f =
    let done = λ (x : Bool × Bytes × Range). written needed readable x.1 x.2 in
    ap (λ (x : Option ℕ × Bytes × Range). done (write_bytes m x.1 x.2)) e ∙ ap done f

abbrev weight_of : ℕ → ℕ
weight_of n = length (encoding n) + n

-- How a push of `n` bytes comes to the write that is refused.
record IsStuck (n : ℕ) (w : Writer) (range : Range) (len : ℕ) (bytes : Bytes) (left : Range)
    : Type 0 where
  some_bytes : 0 < n
  small : length w.ring.bytes ≤ 2 ^ 31
  heavy : length w.ring.bytes < 2 * n
  fitting : weight_of n < length w.ring.bytes
  room :
      make_room
        (suc (length w.ring.bytes))
        w.ring.bytes
        (weight_of n)
        (sub32 (length w.ring.bytes) w.ring.data_range.length)
        w.ring.data_range
      ≡ some (some range)
  varint :
      write_varint n w.ring.bytes (record { offset = w.write_offset; length = weight_of n })
      ≡ (some len, bytes, left)
  same : length bytes ≡ length w.ring.bytes
  covers : left.length ≡ n

stuck_push :
    (m : Bytes) (w : Writer) (range : Range) (len : ℕ) (bytes : Bytes) (left : Range)
    → IsStuck (length m) w range len bytes left
    → push m w ≡ some (true, written (weight m) range bytes left)
stuck_push m w range len bytes left i =
    let f =
      write_bytes_refused m bytes left (omega (arith, i.same, i.small))
        (omega (arith, i.covers, i.same, i.fitting)) (omega (arith, i.covers, i.same, i.heavy)) in
    push_room m w range i.some_bytes (omega (arith, i.fitting, i.small)) (omega (arith, i.fitting))
      i.room
    ∙ ap (λ w'. some (true, w')) (write_item_refused m (weight m) range w len bytes left i.varint f)

push-IsStuck :
    (n : ℕ) (w : Writer) (q : List Bytes)
    → IsRing w q
    → 0 < n
    → length w.ring.bytes < 2 * n
    → weight_of n < length w.ring.bytes
    → (range : Range) × (len : ℕ) × (bytes : Bytes) × (left : Range) × IsStuck n w range len bytes
        left
push-IsStuck n w q r h k l =
    let size = length w.ring.bytes in
    let v = r.view in
    let f = fits w.ring.bytes w.ring.data_range (stored q) v in
    let a : sub32 size w.ring.data_range.length ≡ size - w.ring.data_range.length =
      sub32-small size w.ring.data_range.length (omega (arith, v.small))
        (omega (arith, v.size, f)) in
    let (range, e, moved) =
      make_room-fit (suc size) w.ring.bytes (weight_of n) (sub32 size w.ring.data_range.length)
        w.ring.data_range q (omega (arith, length-le q, f)) (omega (arith, l))
        (omega (arith, a, v.size, f)) v in
    let kept = stored (fit size (weight_of n) q) in
    let v0 : IsView w.ring.bytes (holding range.offset kept) kept = record {
      small = moved.view.small;
      inside = moved.view.inside;
      size = refl;
      hidden = moved.view.hidden;
      circle = moved.view.circle;
    } in
    let c0 : IsCursor w.ring.bytes range.offset kept
        (record { offset = w.write_offset; length = weight_of n }) (weight_of n) =
      record {
        at = r.behind ∙ sym moved.ending ∙ ap (λ x. (range.offset + x) % size) moved.view.size;
        covers = refl;
        room = fit_room size (weight_of n) q (omega (arith, l));
      } in
    let (len, bytes, left, e', d) =
      write_varint-encoding n w.ring.bytes range.offset kept
        (record { offset = w.write_offset; length = weight_of n }) n (omega (arith, l, v.small)) v0
        c0 l in
    (
      range,
      len,
      bytes,
      left,
      record {
        some_bytes = h;
        small = v.small;
        heavy = k;
        fitting = l;
        room = e;
        varint = e';
        same = d.same;
        covers = d.cursor.covers;
      },
    )

-- A message that takes more than half the ring, and less than all of it with its length, is
-- reported as pushed, but none of its bytes is written: another message of the same length leaves
-- the very same ring.
pub push_oversized :
    (m m' : Bytes) (w : Writer) (q : List Bytes)
    → IsRing w q
    → length m ≡ length m'
    → length w.ring.bytes < 2 * length m
    → weight m < length w.ring.bytes
    → (w' : Writer) × (push m w ≡ some (true, w')) × (push m' w ≡ some (true, w'))
push_oversized m m' w q r e k l =
    let (range, len, bytes, left, i) = push-IsStuck (length m) w q r (omega (arith, k)) k l in
    (
      written (weight m) range bytes left,
      stuck_push m w range len bytes left i,
      stuck_push m' w range len bytes left (subst (λ n. IsStuck n w range len bytes left) e i)
          ∙ ap (λ n. some (true, written (weight_of n) range bytes left)) (sym e),
    )
