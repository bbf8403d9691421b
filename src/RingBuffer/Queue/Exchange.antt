-- ===== src/RingBuffer/Queue/Exchange.antt =====
-- A writer that pushes messages into a new ring, and a reader that then takes all there are.
use crashkit.Prelude.{
  ℕ, zero, suc, ◌+◌, ◌*◌, ◌^◌, ◌≤◌, ◌<◌, ◌≡◌, refl, sym, ap, ◌∙◌, subst, Bool, true, false, Option,
  none, some, List, [], ◌∷◌, ◌++◌, length, arith, replicate, ◌⊎◌, inl, if◌then◌else◌, length-append,
  ltb-false, ==-false,
}
use mathlib.Core.List.{append_assoc, append-nil}
use native.Mathlib.Nat.{mod-eq_of_lt}
use crashkit.Prelude.Bytes.{Bytes}
use crashkit.RingBuffer.{Range, RingBufferData, Writer, new_data, new_writer, new_reader, pop, push}
use crashkit.RingBuffer.Copies.{IsView, fits}
use crashkit.RingBuffer.Varint.{encoding}
use crashkit.RingBuffer.Queue.{
  stored, weight, accepts, fit_all, enqueue, IsMessages, length-le, length-stored, stored-append,
}
use crashkit.RingBuffer.Queue.Reader.{pop_empty, pop_first}
use crashkit.RingBuffer.Queue.Writer.{IsRing, IsRingOf, push-enqueue, weight_below}

-- The pushes of a writer, one after the other.
push_all : List Bytes → Writer → Option Writer
push_all [] w = some w
push_all (m ∷ ms) w = elim (push m w) [ none ↦ none | some (_, w') ↦ push_all ms w' ]

abbrev cons_to : Bytes → Option (List Bytes) → Option (List Bytes)
cons_to m none = none
cons_to m (some q) = some (m ∷ q)

-- The pops of a reader, until one fails.
pub pop_all : ℕ → RingBufferData → Range → Option (List Bytes)
pop_all zero ring range = none
pop_all (suc rounds) ring range =
    let (popped, item, range') = pop ring [] range in
    let rest = pop_all rounds ring range' in if popped then cons_to item rest else some []

-- There are never more messages than bytes.
pub exchange : ℕ → List Bytes → Option (List Bytes)
unfolding push_all pop_all
exchange capacity ms = elim (push_all ms (new_writer (new_data capacity))) [
  | none ↦ none
  | some w ↦ pop_all (suc capacity) w.ring (new_reader w.ring)
]

pub enqueue_all : ℕ → List Bytes → List Bytes → List Bytes
enqueue_all capacity [] q = q
enqueue_all capacity (m ∷ ms) q = enqueue_all capacity ms (enqueue capacity m q)

-- Each message takes at most half the ring, or does not fit into it.
unfoldable pub IsSized : ℕ → List Bytes → Type 0
IsSized capacity [] = 0 ≤ capacity
IsSized capacity (m ∷ ms) =
    (length m < 2 ^ 31) × ((2 * length m ≤ capacity) ⊎ (capacity < weight m)) × IsSized capacity ms

pop_round :
    (rounds : ℕ) (ring : RingBufferData) (range range' : Range) (b : Bool) (item : Bytes)
    → pop ring [] range ≡ (b, item, range')
    → pop_all (suc rounds) ring range
      ≡ (if b then cons_to item (pop_all rounds ring range') else some [])
unfolding pop_all
pop_round rounds ring range range' b item e =
    let go = λ (x : Bool × Bytes × Range).
      if x.0 then cons_to x.1 (pop_all rounds ring x.2) else some [] in
    ap go e

-- The reader takes the messages of the queue, in their order.
pub pop_all-eq :
    (rounds : ℕ) (ring : RingBufferData) (range : Range) (q : List Bytes)
    → length q < rounds
    → IsMessages q
    → IsView ring.bytes range (stored q)
    → pop_all rounds ring range ≡ some q
unfolding stored IsMessages
pop_all-eq zero ring range q h i v = absurd (omega (arith, h))
pop_all-eq (suc rounds) ring range [] h i v =
    pop_round rounds ring range range false [] (pop_empty ring [] range v.size)
pop_all-eq (suc rounds) ring range (m ∷ q) h (k, i) v =
    let (range', e, moved) = pop_first ring [] range m q k v in
    pop_round rounds ring range range' true m e
    ∙ ap (cons_to m) (pop_all-eq rounds ring range' q (omega (arith, h)) i moved.view)

length-replicate : (n x : ℕ) → length (replicate n x) ≡ n
length-replicate zero x = refl
length-replicate (suc n) x = ap suc (length-replicate n x)

-- A new ring holds the empty queue.
pub new-IsRing :
    (capacity : ℕ)
    → 0 < capacity
    → capacity ≤ 2 ^ 31
    → IsRingOf capacity [] (new_writer (new_data capacity))
unfolding stored IsMessages new_data
new-IsRing capacity h k =
    let l = length-replicate capacity 0 in
    (
      record {
        view = record {
          small = omega (arith, k, l);
          inside = omega (arith, h, l);
          size = refl;
          hidden = replicate capacity 0;
          circle = append-nil (replicate capacity 0);
        };
        behind = sym (mod-eq_of_lt (omega (arith, h, l)));
        messages = omega arith;
      },
      l,
    )

push_all-eq :
    (ms : List Bytes) (w : Writer) (q : List Bytes)
    → IsRing w q
    → 3 ≤ length w.ring.bytes
    → IsSized (length w.ring.bytes) ms
    → (w' : Writer) × (push_all ms w ≡ some w')
      × IsRingOf (length w.ring.bytes) (enqueue_all (length w.ring.bytes) ms q) w'
unfolding push_all IsSized enqueue_all
push_all-eq [] w q r h i = (w, refl, (r, refl))
push_all-eq (m ∷ ms) w q r h (a, c, i) =
    let (w', e, (r', l)) = push-enqueue m w q r h a c in
    let (w'', e', (r'', l')) =
      push_all-eq ms w' (enqueue (length w.ring.bytes) m q) r' (omega (arith, l, h))
        (subst (λ n. IsSized n ms) (sym l) i) in
    let go = λ (x : Option (Bool × Writer)). elim x as (λ _. Option Writer) [
      | none ↦ none
      | some s ↦ push_all ms s.1
    ] in
    (
      w'',
      ap go e ∙ e',
      subst (λ n. IsRingOf n (enqueue_all n ms (enqueue (length w.ring.bytes) m q)) w'') l
          (r'', l'),
    )

-- What is read from a new ring after some pushes is what the queue of that capacity holds. The
-- ring has 3 to 2 ^ 31 bytes, and each message takes at most half of it or is too heavy for it.
pub exchange-enqueue_all :
    (capacity : ℕ) (ms : List Bytes)
    → 3 ≤ capacity
    → capacity ≤ 2 ^ 31
    → IsSized capacity ms
    → exchange capacity ms ≡ some (enqueue_all capacity ms [])
unfolding exchange
exchange-enqueue_all capacity ms h k i =
    let (r, l) = new-IsRing capacity (omega (arith, h)) k in
    let (w, e, (r', l')) =
      push_all-eq ms (new_writer (new_data capacity)) [] r (omega (arith, l, h))
        (subst (λ n. IsSized n ms) (sym l) i) in
    let go = λ (x : Option Writer). elim x as (λ _. Option (List Bytes)) [
      | none ↦ none
      | some w ↦ pop_all (suc capacity) w.ring (new_reader w.ring)
    ] in
    let q = enqueue_all (length (new_writer (new_data capacity)).ring.bytes) ms [] in
    let f = fits w.ring.bytes w.ring.data_range (stored q) r'.view in
    ap go e
    ∙ pop_all-eq (suc capacity) w.ring w.ring.data_range q (omega (arith, length-le q, f, l', l))
        r'.messages r'.view
    ∙ ap (λ n. some (enqueue_all n ms [])) l

-- Each message has a byte, and takes at most half the ring.
unfoldable pub IsLight : ℕ → List Bytes → Type 0
IsLight capacity [] = 0 ≤ capacity
IsLight capacity (m ∷ ms) = (0 < length m) × (2 * length m ≤ capacity) × IsLight capacity ms

IsLight-IsSized :
    (capacity : ℕ) (ms : List Bytes) → capacity ≤ 2 ^ 31 → IsLight capacity ms → IsSized capacity ms
unfolding IsLight IsSized
IsLight-IsSized capacity [] h i = i
IsLight-IsSized capacity (m ∷ ms) h (a, b, i) =
    (omega (arith, a, b, h), inl b, IsLight-IsSized capacity ms h i)

-- A light message is put behind those there are, if there is room.
enqueue_light :
    (capacity : ℕ) (m : Bytes) (q : List Bytes)
    → 3 ≤ capacity
    → capacity ≤ 2 ^ 31
    → 0 < length m
    → 2 * length m ≤ capacity
    → length (stored q) + weight m ≤ capacity
    → enqueue capacity m q ≡ q ++ (m ∷ [])
unfolding enqueue accepts
enqueue_light capacity m q h k a b r =
    rw
      (
        ==-false (length m) 0 a,
        ltb-false capacity (weight m) (omega (arith, weight_below m capacity a h k b)),
        fit_all capacity (weight m) q r,
      )
      refl

enqueue_all-append :
    (capacity : ℕ) (ms q : List Bytes)
    → 3 ≤ capacity
    → capacity ≤ 2 ^ 31
    → IsLight capacity ms
    → length (stored q) + length (stored ms) ≤ capacity
    → enqueue_all capacity ms q ≡ q ++ ms
unfolding enqueue_all IsLight stored
enqueue_all-append capacity [] q h k i r = sym (append-nil q)
enqueue_all-append capacity (m ∷ ms) q h k (a, b, i) r =
    let n = length-stored m ms in
    let e = enqueue_light capacity m q h k a b (omega (arith, r, n)) in
    let t : length (stored (q ++ (m ∷ []))) ≡ length (stored q) + weight m =
      ap length (stored-append q m)
      ∙ omega (
        arith,
        length-append {0} (stored q) (encoding (length m) ++ m),
        length-append {0} (encoding (length m)) m,
      ) in
    ap (enqueue_all capacity ms) e
    ∙ enqueue_all-append capacity ms (q ++ (m ∷ [])) h k i (omega (arith, r, n, t))
    ∙ append_assoc q (m ∷ []) ms

-- Messages that have a byte each, take at most half the ring each, and fit into it together with
-- their lengths are all read, in the order in which they were pushed. The ring has 3 to 2 ^ 31 bytes.
pub exchange_light :
    (capacity : ℕ) (ms : List Bytes)
    → 3 ≤ capacity
    → capacity ≤ 2 ^ 31
    → IsLight capacity ms
    → length (stored ms) ≤ capacity
    → exchange capacity ms ≡ some ms
unfolding stored
exchange_light capacity ms h k i r =
    exchange-enqueue_all capacity ms h k (IsLight-IsSized capacity ms k i)
    ∙ ap some (enqueue_all-append capacity ms [] h k i (omega (arith, r)))
