-- ===== src/RingBuffer/Queue/Room.antt =====
-- The loop of `Push` that drops the oldest items.
use crashkit.Prelude.{
  ℕ, zero, suc, ◌+◌, ◌≤◌, ◌<◌, ◌≡◌, refl, sym, ap, ◌∙◌, subst, Option, none, some, List, [], ◌∷◌,
  ◌++◌, length, arith, ltb-false, lt→ltb,
}
use native.Mathlib.Decide.{dec_lt}
use crashkit.Prelude.Bytes.{Bytes}
use crashkit.RingBuffer.{Range, add32, advance, read_varint, make_room}
use crashkit.RingBuffer.Copies.{
  IsView, IsMovedOn, IsMovedOn-trans, advance-IsMovedOn, fits, add32-small,
}
use crashkit.RingBuffer.Varint.{encoding}
use crashkit.RingBuffer.Varint.Read.{read_varint-encoding}
use crashkit.RingBuffer.Queue.{stored, weight, fit, length-stored}

room_step :
    (rounds : ℕ) (store : Bytes) (needed available : ℕ) (range range' : Range) (value n : ℕ)
    → available < needed
    → read_varint store range ≡ (some (value, n), range')
    → make_room (suc rounds) store needed available range
      ≡ make_room rounds store needed
          (add32 available (add32 n value))
          (advance (length store) value range')
unfolding make_room
room_step rounds store needed available range range' value n h e =
    let go = λ (x : Option (ℕ × ℕ) × Range). elim x.0 as (λ _. Option (Option Range)) [
      | none ↦ some none
      | some s ↦
          make_room rounds store needed (add32 available (add32 s.1 s.0))
            (advance (length store) s.0 x.1)
    ] in
    rw (make_room, lt→ltb available needed h) (ap go e)

room_enough :
    (rounds : ℕ) (store : Bytes) (needed available : ℕ) (range : Range)
    → needed ≤ available
    → make_room (suc rounds) store needed available range ≡ some (some range)
unfolding make_room
room_enough rounds store needed available range h =
    rw (make_room, ltb-false available needed h) refl

-- One dropped item.
drop_first :
    (store : Bytes) (range : Range) (m : Bytes) (q : List Bytes)
    → IsView store range (stored (m ∷ q))
    → (range' : Range) × (read_varint store range
        ≡ (some (length m, length (encoding (length m))), range'))
      × IsMovedOn store range (stored q) (advance (length store) (length m) range')
unfolding stored
drop_first store range m q v =
    let l = length-stored m q in
    let (range', e, moved) =
      read_varint-encoding store range (m ++ stored q) (length m)
        (omega (arith, v.small, fits store range (stored (m ∷ q)) v, l)) v in
    (
      range',
      e,
      IsMovedOn-trans store range (m ++ stored q) range' (stored q)
          (advance (length store) (length m) range') moved
          (advance-IsMovedOn store range' m (stored q) moved.view),
    )

-- Where the range shows the messages of a queue, the loop ends after at most one round more than
-- there are messages: it leaves a range that shows those that the queue keeps, and that ends where
-- the old one did. The needed bytes fit into the ring, and all that is not shown is available.
pub make_room-fit :
    (rounds : ℕ) (store : Bytes) (needed available : ℕ) (range : Range) (q : List Bytes)
    → length q < rounds
    → needed ≤ length store
    → available + length (stored q) ≡ length store
    → IsView store range (stored q)
    → (range' : Range) × (make_room rounds store needed available range ≡ some (some range'))
      × IsMovedOn store range (stored (fit (length store) needed q)) range'
unfolding fit stored
make_room-fit zero store needed available range q h k a v = absurd (omega (arith, h))
make_room-fit (suc rounds) store needed available range [] h k a v = (
  range,
  room_enough rounds store needed available range (omega (arith, k, a)),
  record { view = v; ending = refl },
)
make_room-fit (suc rounds) store needed available range (m ∷ q) h k a v =
    elim (dec_lt available needed) [
      | yes l ↦
          let f : fit (length store) needed (m ∷ q) ≡ fit (length store) needed q =
            rw (lt→ltb (length store) (length (stored (m ∷ q)) + needed) (omega (arith, a, l)))
              refl in
          let n = length-stored m q in
          let (range1, e, moved) = drop_first store range m q v in
          let range2 = advance (length store) (length m) range1 in
          let s : add32 available (add32 (length (encoding (length m))) (length m))
              ≡ available + weight m =
            ap (add32 available)
              (add32-small (length (encoding (length m))) (length m) (omega (arith, a, n, v.small)))
            ∙ add32-small available (weight m) (omega (arith, a, n, v.small)) in
          let (range3, e', moved') =
            make_room-fit rounds store needed (available + weight m) range2 q (omega (arith, h)) k
              (omega (arith, a, n)) moved.view in
          (
            range3,
            room_step rounds store needed available range range1 (length m)
                  (length (encoding (length m))) l e
                ∙ ap (λ b. make_room rounds store needed b range2) s
                ∙ e',
            subst (λ b. IsMovedOn store range (stored b) range3) (sym f)
                (IsMovedOn-trans store range (stored q) range2
                  (stored (fit (length store) needed q)) range3 moved moved'),
          )
      | no l ↦
          let f : fit (length store) needed (m ∷ q) ≡ m ∷ q =
            rw (ltb-false (length store) (length (stored (m ∷ q)) + needed) (omega (arith, a, l)))
              refl in
          (
            range,
            room_enough rounds store needed available range (omega (arith, l)),
            subst (λ b. IsMovedOn store range (stored b) range) (sym f)
                (record { view = v; ending = refl }),
          )
    ]
