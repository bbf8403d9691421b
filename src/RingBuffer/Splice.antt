-- ===== src/RingBuffer/Splice.antt =====
-- The two `memcpy` calls that read or write round the end of the ring, as one piece of the circle.
use crashkit.Prelude.{
  take-length-append, ℕ, zero, suc, ◌+◌, ◌-◌, ◌≤◌, ◌<◌, ◌≡◌, refl, sym, ap, ◌∙◌, subst, min, [],
  ◌∷◌, ◌++◌, length, take, drop, arith, ltb, if◌then◌else◌, length-append, length-take, length-drop,
  take_all, ltb-false, lt→ltb,
}
use mathlib.Core.List.{append-nil, append_assoc}
use native.Mathlib.Decide.{dec_lt}
use crashkit.Prelude.Bytes.{Bytes}
use crashkit.RingBuffer.{overwrite}
use crashkit.RingBuffer.Circular.{rot, cut, take-append-drop, drop-length-append}

take-append : (n : ℕ) (xs ys : Bytes) → take n (xs ++ ys) ≡ take n xs ++ take (n - length xs) ys
take-append zero xs ys = let k : 0 - length xs ≡ 0 = omega arith in rw k refl
take-append (suc n) [] ys = let k : suc n - 0 ≡ suc n = omega arith in rw k refl
take-append (suc n) (x ∷ xs) ys =
    let k : suc n - suc (length xs) ≡ n - length xs = omega arith in
    rw k (ap (λ l. x ∷ l) (take-append n xs ys))

pub drop-append : (n : ℕ) (xs ys : Bytes) → drop n (xs ++ ys) ≡ drop n xs ++ drop (n - length xs) ys
drop-append zero xs ys = let k : 0 - length xs ≡ 0 = omega arith in rw k refl
drop-append (suc n) [] ys = let k : suc n - 0 ≡ suc n = omega arith in rw k refl
drop-append (suc n) (x ∷ xs) ys =
    let k : suc n - suc (length xs) ≡ n - length xs = omega arith in rw k (drop-append n xs ys)

pub drop_all : (n : ℕ) (xs : Bytes) → length xs ≤ n → drop n xs ≡ []
drop_all zero [] h = refl
drop_all zero (x ∷ xs) h = absurd (omega arith)
drop_all (suc n) [] h = refl
drop_all (suc n) (x ∷ xs) h = drop_all n xs (omega arith)

-- Reading `n` bytes from the offset on.
abbrev pub read_round : ℕ → ℕ → Bytes → Bytes
read_round o n d =
    let initial = min n (length d - o) in
    take initial (drop o d) ++ (if ltb initial n then take (n - initial) d else [])

-- Writing bytes from the offset on.
abbrev write_sized : ℕ → ℕ → Bytes → Bytes → Bytes
write_sized room o bytes d =
    let initial = min (length bytes) room in
    let front = overwrite o (take initial bytes) d in
    if ltb initial (length bytes) then overwrite 0 (drop initial bytes) front else front

abbrev pub write_round : ℕ → Bytes → Bytes → Bytes
write_round o bytes d = write_sized (length d - o) o bytes d

drop_past : (a b : Bytes) (n : ℕ) → drop (length a + n) (a ++ b) ≡ drop n b
drop_past a b n =
    let k : length a + n - length a ≡ n = omega arith in
    drop-append (length a + n) a b ∙ rw (drop_all (length a + n) a (omega arith), k) refl

overwrite-append :
    (a b bytes : Bytes)
    → overwrite (length a) bytes (a ++ b) ≡ a ++ (bytes ++ drop (length bytes) b)
overwrite-append a b bytes = rw (take-length-append a b, drop_past a b (length bytes)) refl

-- A list in two parts, whose second part stands first in the circle.
read_parts :
    (s n : ℕ) (a b : Bytes)
    → s ≡ length b
    → n ≤ length b + length a
    → take (min n s) b ++ (if ltb (min n s) n then take (n - min n s) (a ++ b) else [])
      ≡ take n (b ++ a)
read_parts s n a b e h = elim (dec_lt s n) [
  | yes l ↦
      let m : min n s ≡ s = omega (arith, l) in
      let z : n - length b - length a ≡ 0 = omega (arith, h) in
      rw
        (
          m,
          lt→ltb s n l,
          take_all s b (omega (arith, e)),
          take-append n b a,
          take_all n b (omega (arith, e, l)),
          e,
          take-append (n - length b) a b,
          z,
        )
        (ap (λ r. b ++ r) (append-nil _))
  | no l ↦
      let m : min n s ≡ n = omega (arith, l) in
      let z : n - length b ≡ 0 = omega (arith, e, l) in
      rw (m, ltb-false n n (omega arith), take-append n b a, z) refl
]

-- Reading gives the bytes that stand first in the circle.
pub read_round-eq :
    (o n : ℕ) (d : Bytes) → o < length d → n ≤ length d → read_round o n d ≡ take n (rot o d)
read_round-eq o n d h k =
    let e : d ≡ take o d ++ drop o d = sym (take-append-drop o d) in
    let q =
      read_parts (length d - o) n (take o d) (drop o d) (sym (length-drop o d))
        (omega (arith, length-drop {0} o d, length-take {0} o d, h, k)) in
    subst
      (λ x.
        take (min n (length d - o)) (drop o d)
          ++ (if ltb (min n (length d - o)) n then take (n - min n (length d - o)) x else [])
        ≡ take n (rot o d))
      (take-append-drop o d) q

rot-past : (a x y : Bytes) → length x ≡ length a → rot (length a) (x ++ y) ≡ y ++ x
rot-past a x y e =
    subst (λ n. rot n (x ++ y) ≡ y ++ x) e
      (rw (drop-length-append x y, take-length-append x y) refl)

write_long :
    (a b s1 s2 : Bytes)
    → length s1 ≡ length b
    → length s2 ≤ length a
    → rot (length a) (overwrite 0 s2 (overwrite (length a) s1 (a ++ b)))
      ≡ s1 ++ (s2 ++ drop (length s2) a)
write_long a b s1 s2 e h =
    let k : 0 + length s2 ≡ length s2 = omega arith in
    let z : length s2 - length a ≡ 0 = omega (arith, h) in
    let l : length (s2 ++ drop (length s2) a) ≡ length a =
      omega (arith, length-append {0} s2 (drop (length s2) a), length-drop {0} (length s2) a, h) in
    rw
      (
        k,
        overwrite-append a b s1,
        drop_all (length s1) b (omega (arith, e)),
        append-nil s1,
        drop-append (length s2) a s1,
        z,
      )
      (subst (λ x. rot (length a) x ≡ s1 ++ (s2 ++ drop (length s2) a))
        (append_assoc s2 (drop (length s2) a) s1) (rot-past a (s2 ++ drop (length s2) a) s1 l))

-- Writing over the parts.
write_parts :
    (s : ℕ) (a b bytes : Bytes)
    → s ≡ length b
    → length bytes ≤ length b + length a
    → rot (length a) (write_sized s (length a) bytes (a ++ b))
      ≡ bytes ++ drop (length bytes) (b ++ a)
write_parts s a b bytes e h = elim (dec_lt s (length bytes)) [
  | yes l ↦
      let m : min (length bytes) s ≡ s = omega (arith, l) in
      let (s1, s2, p, k) = cut s bytes (omega (arith, l)) in
      let n : length bytes ≡ length s1 + length s2 = ap length p ∙ length-append {0} s1 s2 in
      let t : take s bytes ≡ s1 =
        ap (take s) p ∙ subst (λ i. take i (s1 ++ s2) ≡ s1) k (take-length-append s1 s2) in
      let r : drop s bytes ≡ s2 =
        ap (drop s) p ∙ subst (λ i. drop i (s1 ++ s2) ≡ s2) k (drop-length-append s1 s2) in
      let z : length bytes - length b ≡ length s2 = omega (arith, n, k, e) in
      rw
        (
          m,
          lt→ltb s (length bytes) l,
          t,
          r,
          drop-append (length bytes) b a,
          drop_all (length bytes) b (omega (arith, e, l)),
          z,
        )
        (write_long a b s1 s2 (omega (arith, k, e)) (omega (arith, n, k, e, h))
          ∙ sym (append_assoc s1 s2 (drop (length s2) a))
          ∙ ap (λ x. x ++ drop (length s2) a) (sym p))
  | no l ↦
      let m : min (length bytes) s ≡ length bytes = omega (arith, l) in
      let z : length bytes - length b ≡ 0 = omega (arith, e, l) in
      rw
        (
          m,
          ltb-false (length bytes) (length bytes) (omega arith),
          take_all (length bytes) bytes (omega arith),
          overwrite-append a b bytes,
          drop-append (length bytes) b a,
          z,
        )
        (rot-past a a (bytes ++ drop (length bytes) b) refl
          ∙ append_assoc bytes (drop (length bytes) b) a)
]

-- Writing puts the bytes first in the circle, and leaves what stands behind them.
pub write_round-eq :
    (o : ℕ) (bytes d : Bytes)
    → o < length d
    → length bytes ≤ length d
    → rot o (write_round o bytes d) ≡ bytes ++ drop (length bytes) (rot o d)
write_round-eq o bytes d h k =
    let a = take o d in
    let b = drop o d in
    let e : length a ≡ o = omega (arith, length-take {0} o d, h) in
    let q =
      write_parts (length d - o) a b bytes (sym (length-drop o d))
        (omega (arith, length-drop {0} o d, length-take {0} o d, h, k)) in
    subst
      (λ x. rot o (write_sized (length d - o) o bytes x) ≡ bytes ++ drop (length bytes) (b ++ a))
      (take-append-drop o d)
      (subst
        (λ n.
          rot n (write_sized (length d - o) n bytes (a ++ b))
          ≡ bytes ++ drop (length bytes) (b ++ a))
        e q)

length-overwrite :
    (o : ℕ) (bytes d : Bytes)
    → o + length bytes ≤ length d
    → length (overwrite o bytes d) ≡ length d
length-overwrite o bytes d h = omega (
  arith,
  h,
  length-append {0} (take o d) (bytes ++ drop (o + length bytes) d),
  length-append {0} bytes (drop (o + length bytes) d),
  length-take {0} o d,
  length-drop {0} (o + length bytes) d,
)

length-write_sized :
    (room o : ℕ) (bytes d : Bytes)
    → o + room ≤ length d
    → length bytes ≤ length d
    → length (write_sized room o bytes d) ≡ length d
length-write_sized room o bytes d h k = elim (dec_lt (min (length bytes) room) (length bytes)) [
  | yes l ↦ rw (lt→ltb (min (length bytes) room) (length bytes) l) (second ∙ first)
  | no l ↦ rw (ltb-false (min (length bytes) room) (length bytes) (omega (arith, l))) first
]
  where
    front : Bytes
    front = overwrite o (take (min (length bytes) room) bytes) d

    first : length front ≡ length d
    first =
        length-overwrite o (take (min (length bytes) room) bytes) d
          (omega (arith, length-take {0} (min (length bytes) room) bytes, h))

    second : length (overwrite 0 (drop (min (length bytes) room) bytes) front) ≡ length front
    second =
        length-overwrite 0 (drop (min (length bytes) room) bytes) front
          (omega (arith, length-drop {0} (min (length bytes) room) bytes, first, k))

pub length-write_round :
    (o : ℕ) (bytes d : Bytes)
    → o < length d
    → length bytes ≤ length d
    → length (write_round o bytes d) ≡ length d
length-write_round o bytes d h k = length-write_sized (length d - o) o bytes d (omega (arith, h)) k
