-- ===== src/RingBuffer/Circular.antt =====
-- A list read in a circle from an offset: moving on, and writing over a part of it.
use crashkit.Prelude.{
  ℕ, zero, suc, ◌+◌, ◌-◌, ◌%◌, ◌≤◌, ◌<◌, ◌≡◌, refl, sym, ap, ◌∙◌, subst, List, [], ◌∷◌, ◌++◌,
  length, take, drop, arith, length-append, length-take, length-drop, take-length-append,
}
use mathlib.Core.List.{append_assoc}
use native.Mathlib.Decide.{dec_lt}
use native.Mathlib.Nat.{mod-eq_of_lt, mod-eq-sub-mod}

module _ {ℓ} {A : Type ℓ} where
  pub drop-length-append : (xs ys : List A) → drop (length xs) (xs ++ ys) ≡ ys
  drop-length-append [] ys = refl
  drop-length-append (x ∷ xs) ys = drop-length-append xs ys

  pub take-append-drop : (n : ℕ) (xs : List A) → take n xs ++ drop n xs ≡ xs
  take-append-drop zero xs = refl
  take-append-drop (suc n) [] = refl
  take-append-drop (suc n) (x ∷ xs) = ap (λ l. x ∷ l) (take-append-drop n xs)

  -- A list cut in two at a place inside it.
  pub cut :
      (n : ℕ) (xs : List A)
      → n ≤ length xs
      → (front : List A) × (back : List A) × (xs ≡ front ++ back) × (length front ≡ n)
  cut n xs h = (take n xs, drop n xs, sym (take-append-drop n xs), omega (arith, length-take n xs))

  pub append_cancel :
      (xs ys zs ws : List A) → length xs ≡ length zs → xs ++ ys ≡ zs ++ ws → (xs ≡ zs) × (ys ≡ ws)
  append_cancel [] ys [] ws l e = (refl, e)
  append_cancel [] ys (z ∷ zs) ws l e = absurd (omega arith)
  append_cancel (x ∷ xs) ys [] ws l e = absurd (omega arith)
  append_cancel (x ∷ xs) ys (z ∷ zs) ws l e = ground (arith, append_cancel xs ys zs ws)

  -- The list from an offset on, round to that offset.
  abbrev pub rot : ℕ → List A → List A
  rot o d = drop o d ++ take o d

  rot-append : (a b : List A) → rot (length a) (a ++ b) ≡ b ++ a
  rot-append a b = rw (drop-length-append a b, take-length-append a b)

  pub rot-eq-append : (o : ℕ) (d a b : List A) → d ≡ a ++ b → o ≡ length a → rot o d ≡ b ++ a
  rot-eq-append o d a b e k = rw (e, k) (rot-append a b)

  pub length-rot : (o : ℕ) (d : List A) → length (rot o d) ≡ length d
  length-rot o d =
      omega
        (arith, length-append {ℓ} (drop o d) (take o d), length-take {ℓ} o d, length-drop {ℓ} o d)

  pub length-of_rot : (o : ℕ) (d c f : List A) → rot o d ≡ c ++ f → length c + length f ≡ length d
  length-of_rot o d c f e = omega (arith, length-rot o d, ap length e, length-append {ℓ} c f)

  -- The cut falls before the end of the list: `a` is what stands before the offset.
  rot_short :
      (a b1 b2 c f : List A)
      → (b1 ++ b2) ++ a ≡ c ++ f
      → length b1 ≡ length c
      → rot (length a + length c) (a ++ (b1 ++ b2)) ≡ f ++ c
  rot_short a b1 b2 c f e k =
      let (p, q) = append_cancel b1 (b2 ++ a) c f k (sym (append_assoc b1 b2 a) ∙ e) in
      rot-eq-append (length a + length c) (a ++ (b1 ++ b2)) (a ++ b1) b2
        (sym (append_assoc a b1 b2)) (omega (arith, length-append {ℓ} a b1, k))
      ∙ sym (append_assoc b2 a b1)
      ∙ rw (p, q) refl

  -- The cut falls behind the end of the list, so it goes round.
  rot_long :
      (a1 a2 b c f : List A)
      → b ++ (a1 ++ a2) ≡ c ++ f
      → length b + length a1 ≡ length c
      → rot (length a1) ((a1 ++ a2) ++ b) ≡ f ++ c
  rot_long a1 a2 b c f e k =
      let (p, q) =
        append_cancel (b ++ a1) a2 c f (omega (arith, length-append {ℓ} b a1, k))
          (append_assoc b a1 a2 ∙ e) in
      rot-eq-append (length a1) ((a1 ++ a2) ++ b) a1 (a2 ++ b) (append_assoc a1 a2 b) refl
      ∙ append_assoc a2 b a1
      ∙ rw (p, q) refl

pos_short : (o n s : ℕ) → o + n < s → (o + n) % s ≡ o + n
pos_short o n s h = mod-eq_of_lt h

pos_long : (o n s : ℕ) → o < s → n ≤ s → s ≤ o + n → (o + n) % s ≡ o + n - s
pos_long o n s h k l =
    mod-eq-sub-mod {n = o + n} {m = s} l ∙ mod-eq_of_lt {n = o + n - s} {m = s} (omega arith)

module _ {ℓ} {A : Type ℓ} where
  turn_short :
      (a b c f : List A)
      → b ++ a ≡ c ++ f
      → length c ≤ length b
      → rot (length a + length c) (a ++ b) ≡ f ++ c
  turn_short a b c f e l =
      let (b1, b2, p, k) = cut (length c) b l in
      subst (λ x. rot (length a + length c) (a ++ x) ≡ f ++ c) (sym p)
        (rot_short a b1 b2 c f (subst (λ x. x ++ a ≡ c ++ f) p e) k)

  turn_long :
      (a b c f : List A)
      → b ++ a ≡ c ++ f
      → length b ≤ length c
      → length c ≤ length b + length a
      → rot (length c - length b) (a ++ b) ≡ f ++ c
  turn_long a b c f e l m =
      let (a1, a2, p, k) = cut (length c - length b) a (omega (arith, l, m)) in
      subst (λ n. rot n (a ++ b) ≡ f ++ c) k
        (subst (λ x. rot (length a1) (x ++ b) ≡ f ++ c) (sym p)
          (rot_long a1 a2 b c f (subst (λ x. b ++ x ≡ c ++ f) p e) (omega (arith, k, l))))

  turn :
      (s : ℕ) (a b c f : List A)
      → s ≡ length a + length b
      → length a < s
      → length c ≤ s
      → b ++ a ≡ c ++ f
      → rot ((length a + length c) % s) (a ++ b) ≡ f ++ c
  turn s a b c f k h m e = elim (dec_lt (length a + length c) s) [
    | yes l ↦ rw (pos_short (length a) (length c) s l) (turn_short a b c f e (omega (arith, l, k)))
    | no l ↦
        let q : length a + length c - s ≡ length c - length b = omega (arith, k, l) in
        subst (λ n. rot n (a ++ b) ≡ f ++ c)
          (sym (pos_long (length a) (length c) s h m (omega (arith, l)) ∙ q))
          (turn_long a b c f e (omega (arith, l, k)) (omega (arith, m, k)))
  ]

  -- Moving the offset past `c` leaves `c` at the end.
  pub rot_advance :
      (o : ℕ) (d c f : List A)
      → o < length d
      → rot o d ≡ c ++ f
      → rot ((o + length c) % length d) d ≡ f ++ c
  rot_advance o d c f h e =
      let (a, b, p, k) = cut o d (omega (arith, h)) in
      let q : b ++ a ≡ c ++ f = sym (rot-eq-append o d a b p (sym k)) ∙ e in
      let s : length d ≡ length a + length b = ap length p ∙ length-append {ℓ} a b in
      let t = length-of_rot o d c f e in
      subst (λ n. rot ((n + length c) % length d) d ≡ f ++ c) k
        (subst (λ x. rot ((length a + length c) % length d) x ≡ f ++ c) (sym p)
          (turn (length d) a b c f s (omega (arith, h, k)) (omega (arith, t)) q))

  -- The converse: what stands at the offset is determined by what stands further on.
  pub rot_back :
      (o : ℕ) (d c f : List A)
      → o < length d
      → length c + length f ≡ length d
      → rot ((o + length c) % length d) d ≡ f ++ c
      → rot o d ≡ c ++ f
  rot_back o d c f h l e =
      let (c', f', p, k) = cut (length c) (rot o d) (omega (arith, l, length-rot o d)) in
      let q : f' ++ c' ≡ f ++ c =
        sym (subst (λ n. rot ((o + n) % length d) d ≡ f' ++ c') k (rot_advance o d c' f' h p))
        ∙ e in
      let m : length f' ≡ length f = omega (arith, length-of_rot o d c' f' p, k, l) in
      let (u, v) = append_cancel f' c' f c m q in p ∙ rw (u, v) refl
