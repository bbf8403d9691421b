-- ===== src/RingBuffer/Queue.antt =====
-- What the ring buffer promises: a queue of messages that forgets the oldest ones when the newest
-- would not fit any more.
pub mod Room
pub mod Reader
pub mod Writer
pub mod Oversized
pub mod Exchange
use crashkit.Prelude.{
  ℕ, zero, suc, ◌+◌, ◌≤◌, ◌<◌, ◌≡◌, refl, sym, ap, ◌∙◌, Bool, true, false, not, List, [], ◌∷◌, ◌++◌,
  length, arith, ltb, ◌==◌, if◌then◌else◌, length-append,
}
use mathlib.Core.List.{append_assoc, append-nil}
use crashkit.Prelude.Bytes.{Bytes}
use crashkit.RingBuffer.Varint.{encoding, length-groups}

-- A message as it is stored: its length and its bytes.
unfoldable pub stored : List Bytes → Bytes
stored [] = []
stored (m ∷ q) = encoding (length m) ++ (m ++ stored q)

abbrev pub weight : Bytes → ℕ
weight m = length (encoding (length m)) + length m

-- The oldest messages are dropped until `needed` bytes are free.
pub fit : ℕ → ℕ → List Bytes → List Bytes
unfolding stored
fit capacity needed [] = []
fit capacity needed (m ∷ q) =
    let rest = fit capacity needed q in
    if ltb capacity (length (stored (m ∷ q)) + needed) then rest else m ∷ q

-- A message is accepted unless it is empty or heavier than the whole queue.
pub accepts : ℕ → Bytes → Bool
accepts capacity m = if length m == 0 then false else not (ltb capacity (weight m))

pub enqueue : ℕ → Bytes → List Bytes → List Bytes
unfolding accepts fit
enqueue capacity m q = if accepts capacity m then fit capacity (weight m) q ++ (m ∷ []) else q

-- No message is empty.
pub IsMessages : List Bytes → Type 0
IsMessages [] = 0 ≤ 0
IsMessages (m ∷ q) = (0 < length m) × IsMessages q

pub fit-IsMessages :
    (capacity needed : ℕ) (q : List Bytes) → IsMessages q → IsMessages (fit capacity needed q)
unfolding fit IsMessages
fit-IsMessages capacity needed [] h = h
fit-IsMessages capacity needed (m ∷ q) h = ground (arith, fit-IsMessages capacity needed q)

pub append-IsMessages :
    (q : List Bytes) (m : Bytes) → IsMessages q → 0 < length m → IsMessages (q ++ (m ∷ []))
unfolding IsMessages
append-IsMessages [] m h k = (k, h)
append-IsMessages (n ∷ q) m (h, i) k = (h, append-IsMessages q m i k)

pub stored-append :
    (q : List Bytes) (m : Bytes) → stored (q ++ (m ∷ [])) ≡ stored q ++ (encoding (length m) ++ m)
unfolding stored
stored-append [] m = ap (λ b. encoding (length m) ++ b) (append-nil m)
stored-append (n ∷ q) m =
    ap (λ b. encoding (length n) ++ (n ++ b)) (stored-append q m)
    ∙ ap (λ b. encoding (length n) ++ b)
        (sym (append_assoc n (stored q) (encoding (length m) ++ m)))
    ∙ sym (append_assoc (encoding (length n)) (n ++ stored q) (encoding (length m) ++ m))

pub length-stored :
    (m : Bytes) (q : List Bytes) → length (stored (m ∷ q)) ≡ weight m + length (stored q)
unfolding stored
length-stored m q =
    omega (
      arith,
      length-append {0} (encoding (length m)) (m ++ stored q),
      length-append {0} m (stored q),
    )

pub length-le : (q : List Bytes) → length q ≤ length (stored q)
unfolding stored
length-le [] = omega arith
length-le (m ∷ q) = omega (arith, length-le q, length-stored m q, length-groups 5 (length m))

-- The messages that stay leave the room.
pub fit_room :
    (capacity needed : ℕ) (q : List Bytes)
    → needed ≤ capacity
    → length (stored (fit capacity needed q)) + needed ≤ capacity
unfolding stored fit
fit_room capacity needed [] h = omega arith
fit_room capacity needed (m ∷ q) h = ground (arith, fit_room capacity needed q h)

-- While there is room nothing is dropped.
pub fit_all :
    (capacity needed : ℕ) (q : List Bytes)
    → length (stored q) + needed ≤ capacity
    → fit capacity needed q ≡ q
unfolding fit
fit_all capacity needed [] h = refl
fit_all capacity needed (m ∷ q) h = ground arith
