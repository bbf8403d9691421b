-- ===== src/RingBuffer/Queue/Writer.antt =====
-- `RingBufferWriter`: its `Push` puts a message into the queue.
use crashkit.Prelude.{
  ℕ, suc, ◌+◌, ◌-◌, ◌*◌, ◌%◌, ◌^◌, ◌≤◌, ◌<◌, ◌≡◌, refl, sym, ap, ◌∙◌, subst, Bool, true, false,
  Option, some, List, [], ◌∷◌, ◌++◌, length, arith, ◌⊎◌, inl, inr, if◌then◌else◌, length-append,
  ltb-false, lt→ltb, ==-false,
}
use mathlib.Core.List.{append_assoc}
use native.Mathlib.Decide.{dec_lt}
use crashkit.Prelude.Bytes.{Bytes}
use crashkit.RingBuffer.{
  Range, Writer, add32, sub32, encoded_length, make_room, write_varint, write_bytes, write_item,
  finish_push, push,
}
use crashkit.RingBuffer.Copies.{IsView, fits, add32-small, sub32-small}
use crashkit.RingBuffer.Varint.{
  encoding, length-groups-le, length-encoding_small, encoded_length-eq,
}
use crashkit.RingBuffer.Varint.Write.{holding, IsCursor, write_chunk, write_varint-encoding}
use crashkit.RingBuffer.Queue.{
  stored, weight, fit, accepts, enqueue, IsMessages, fit-IsMessages, append-IsMessages,
  stored-append, length-le, fit_room,
}
use crashkit.RingBuffer.Queue.Room.{make_room-fit}

-- The writer's ring holds this queue: its range shows the stored messages, and the next one will be
-- written where the range ends.
pub record IsRing (w : Writer) (q : List Bytes) : Type 0 where
  pub view : IsView w.ring.bytes w.ring.data_range (stored q)
  pub behind :
      w.write_offset ≡ (w.ring.data_range.offset + w.ring.data_range.length) % length w.ring.bytes
  pub messages : IsMessages q

pub weight_below :
    (m : Bytes) (size : ℕ)
    → 0 < length m
    → 3 ≤ size
    → size ≤ 2 ^ 31
    → 2 * length m ≤ size
    → weight m < size
weight_below m size h k s l = elim (dec_lt (length m) 128) [
  | yes a ↦
      let e : length (encoding (length m)) ≡ 1 = length-encoding_small (length m) a in
      omega (arith, e, h, k, l)
  | no a ↦ omega (arith, length-groups-le 5 (length m), a, l)
]

-- The writer that a write leaves.
abbrev pub written : ℕ → Range → Bytes → Range → Writer
written needed readable bytes w = record {
  ring = record {
    data_range = record { offset = readable.offset; length = add32 readable.length needed };
    bytes = bytes;
  };
  write_offset = w.offset;
}

-- The ring holds a queue, and has this many bytes.
abbrev pub IsRingOf : ℕ → List Bytes → Writer → Type 0
IsRingOf size q w = IsRing w q × (length w.ring.bytes ≡ size)

write_item-eq :
    (m : Bytes) (needed : ℕ) (readable : Range) (w : Writer) (n : ℕ) (s1 s2 : Bytes) (w1 w2 : Range)
    → write_varint (length m) w.ring.bytes (record { offset = w.write_offset; length = needed })
      ≡ (some n, s1, w1)
    → write_bytes m s1 w1 ≡ (true, s2, w2)
    → write_item m needed readable w ≡ written needed readable s2 w2
unfolding write_item
write_item-eq m needed readable w n s1 s2 w1 w2 e f =
    let done = λ (x : Bool × Bytes × Range). written needed readable x.1 x.2 in
    ap (λ (x : Option ℕ × Bytes × Range). done (write_bytes m x.1 x.2)) e ∙ ap done f

-- The message is written behind those that stay.
write_item-IsRing :
    (m : Bytes) (w : Writer) (kept : List Bytes) (range : Range)
    → IsView w.ring.bytes range (stored kept)
    → w.write_offset ≡ (range.offset + range.length) % length w.ring.bytes
    → IsMessages kept
    → 0 < length m
    → 3 ≤ length w.ring.bytes
    → 2 * length m ≤ length w.ring.bytes
    → length (stored kept) + weight m ≤ length w.ring.bytes
    → IsRingOf (length w.ring.bytes) (kept ++ (m ∷ [])) (write_item m (weight m) range w)
write_item-IsRing m w kept range v at i h k l r =
    let o = range.offset in
    let w0 : Range = record { offset = w.write_offset; length = weight m } in
    let v0 : IsView w.ring.bytes (holding o (stored kept)) (stored kept) = record {
      small = v.small;
      inside = v.inside;
      size = refl;
      hidden = v.hidden;
      circle = v.circle;
    } in
    let c0 : IsCursor w.ring.bytes o (stored kept) w0 (weight m) = record {
      at = at ∙ ap (λ n. (o + n) % length w.ring.bytes) v.size;
      covers = refl;
      room = r;
    } in
    let (n, s1, w1, e1, d1) =
      write_varint-encoding (length m) w.ring.bytes o (stored kept) w0 (length m)
        (omega (arith, v.small, l)) v0 c0 (weight_below m (length w.ring.bytes) h k v.small l) in
    let z : length m ≡ length m + 0 = omega arith in
    let c1 = subst (IsCursor s1 o (stored kept ++ encoding (length m)) w1) z d1.cursor in
    let (s2, w2, e2, d2) =
      write_chunk s1 o (stored kept ++ encoding (length m)) w1 m 0 d1.view c1
        (omega (arith, d1.same, l)) in
    let e = write_item-eq m (weight m) range w n s1 s2 w1 w2 e1 e2 in
    let t : (stored kept ++ encoding (length m)) ++ m ≡ stored (kept ++ (m ∷ [])) =
      append_assoc (stored kept) (encoding (length m)) m ∙ sym (stored-append kept m) in
    let total : range.length + weight m ≡ length (stored (kept ++ (m ∷ []))) = omega (
      arith,
      v.size,
      ap length t,
      length-append {0} (stored kept ++ encoding (length m)) m,
      length-append {0} (stored kept) (encoding (length m)),
    ) in
    let sum : add32 range.length (weight m) ≡ length (stored (kept ++ (m ∷ []))) =
      add32-small range.length (weight m) (omega (arith, v.size, r, v.small)) ∙ total in
    subst (IsRingOf (length w.ring.bytes) (kept ++ (m ∷ []))) (sym e) (
      record {
        view = record {
          small = d2.view.small;
          inside = d2.view.inside;
          size = sum;
          hidden = d2.view.hidden;
          circle = d2.view.circle ∙ ap (λ b. b ++ d2.view.hidden) t;
        };
        behind = d2.cursor.at ∙ ap (λ n. (o + n) % length s2) (ap length t ∙ sym sum);
        messages = append-IsMessages kept m i h;
      },
      d2.same ∙ d1.same,
    )

pub push_room :
    (m : Bytes) (w : Writer) (range : Range)
    → 0 < length m
    → weight m < 2 ^ 32
    → weight m ≤ length w.ring.bytes
    → make_room
        (suc (length w.ring.bytes))
        w.ring.bytes
        (weight m)
        (sub32 (length w.ring.bytes) w.ring.data_range.length)
        w.ring.data_range
      ≡ some (some range)
    → push m w ≡ some (true, write_item m (weight m) range w)
unfolding push finish_push
push_room m w range h k l e =
    let needed : add32 (encoded_length (length m)) (length m) ≡ weight m =
      ap (λ n. add32 n (length m)) (encoded_length-eq (length m))
      ∙ add32-small (length (encoding (length m))) (length m) k in
    rw (needed, ==-false (length m) 0 h, ltb-false (length w.ring.bytes) (weight m) l)
      (ap (λ r. finish_push m (weight m) r w) e)

push_heavy :
    (m : Bytes) (w : Writer)
    → weight m < 2 ^ 32
    → length w.ring.bytes < weight m
    → push m w ≡ some (false, w)
unfolding push
push_heavy m w h k =
    let needed : add32 (encoded_length (length m)) (length m) ≡ weight m =
      ap (λ n. add32 n (length m)) (encoded_length-eq (length m))
      ∙ add32-small (length (encoding (length m))) (length m) h in
    rw (needed, lt→ltb (length w.ring.bytes) (weight m) k) (ground arith)

push_empty : (m : Bytes) (w : Writer) → length m ≡ 0 → push m w ≡ some (false, w)
unfolding push
push_empty m w h = rw h refl

-- A message that takes at most half the ring is put into the queue.
push_light :
    (m : Bytes) (w : Writer) (q : List Bytes)
    → IsRing w q
    → 0 < length m
    → 3 ≤ length w.ring.bytes
    → 2 * length m ≤ length w.ring.bytes
    → (w' : Writer) × (push m w ≡ some (true, w'))
      × IsRingOf (length w.ring.bytes) (fit (length w.ring.bytes) (weight m) q ++ (m ∷ [])) w'
push_light m w q r h k l =
    let size = length w.ring.bytes in
    let v = r.view in
    let f = fits w.ring.bytes w.ring.data_range (stored q) v in
    let b = weight_below m size h k v.small l in
    let a : sub32 size w.ring.data_range.length ≡ size - w.ring.data_range.length =
      sub32-small size w.ring.data_range.length (omega (arith, v.small))
        (omega (arith, v.size, f)) in
    let (range, e, moved) =
      make_room-fit (suc size) w.ring.bytes (weight m) (sub32 size w.ring.data_range.length)
        w.ring.data_range q (omega (arith, length-le q, f)) (omega (arith, b))
        (omega (arith, a, v.size, f)) v in
    (
      write_item m (weight m) range w,
      push_room m w range h (omega (arith, b, v.small)) (omega (arith, b)) e,
      write_item-IsRing m w (fit size (weight m) q) range moved.view (r.behind ∙ sym moved.ending)
          (fit-IsMessages size (weight m) q r.messages) h k l
          (fit_room size (weight m) q (omega (arith, b))),
    )

-- A message that takes at most half the ring is accepted.
pub accepts_light :
    (m : Bytes) (size : ℕ)
    → 0 < length m
    → 3 ≤ size
    → size ≤ 2 ^ 31
    → 2 * length m ≤ size
    → accepts size m ≡ true
unfolding accepts
accepts_light m size h k s l =
    rw
      (
        ==-false (length m) 0 h,
        ltb-false size (weight m) (omega (arith, weight_below m size h k s l)),
      )
      refl

-- `push` does what the queue does: it accepts a message where the queue accepts it, and then the
-- ring holds the queue with the message in it, without the oldest ones that had to go. The ring has
-- 3 to 2 ^ 31 bytes, and the message takes at most half of it or is too heavy for it.
pub push-enqueue :
    (m : Bytes) (w : Writer) (q : List Bytes)
    → IsRing w q
    → 3 ≤ length w.ring.bytes
    → length m < 2 ^ 31
    → (2 * length m ≤ length w.ring.bytes) ⊎ (length w.ring.bytes < weight m)
    → (w' : Writer) × (push m w ≡ some (accepts (length w.ring.bytes) m, w'))
      × IsRingOf (length w.ring.bytes) (enqueue (length w.ring.bytes) m q) w'
unfolding accepts enqueue
push-enqueue m w q r k s c = elim (dec_lt 0 (length m)) [
  | no a ↦ let z : length m ≡ 0 = omega (arith, a) in (w, rw z (push_empty m w z), rw z (r, refl))
  | yes a ↦ elim c [
    | inl l ↦
        let t = accepts_light m (length w.ring.bytes) a k r.view.small l in
        let (w', e, d) = push_light m w q r a k l in
        (
          w',
          e ∙ ap (λ b. some (b, w')) (sym t),
          subst
              (λ b.
                IsRingOf (length w.ring.bytes)
                  (if b then fit (length w.ring.bytes) (weight m) q ++ (m ∷ []) else q) w')
              (sym t) d,
        )
    | inr l ↦
        let t : accepts (length w.ring.bytes) m ≡ false =
          rw (==-false (length m) 0 a, lt→ltb (length w.ring.bytes) (weight m) l) refl in
        (
          w,
          push_heavy m w (omega (arith, s, length-groups-le 5 (length m))) l
              ∙ ap (λ b. some (b, w)) (sym t),
          subst
              (λ b.
                IsRingOf (length w.ring.bytes)
                  (if b then fit (length w.ring.bytes) (weight m) q ++ (m ∷ []) else q) w)
              (sym t) (r, refl),
        )
  ]
]
