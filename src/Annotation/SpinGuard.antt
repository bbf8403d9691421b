-- ===== src/Annotation/SpinGuard.antt =====
-- crashkit/src/main/cpp/crashpad/include/util/synchronization/scoped_spin_guard.h: the lock of an
-- annotation. Other threads and the clock are arguments: `free i` tells whether attempt number `i`
-- finds the lock free, and `clock i` is the reading number `i` of the monotonic clock, whose first is
-- taken before the attempts, and each other one after an attempt that failed.
use crashkit.Prelude.{
  ℕ, zero, suc, ◌+◌, ◌*◌, ◌/◌, ◌%◌, ◌^◌, ◌≤◌, ◌<◌, ◌≡◌, refl, sym, ap, ◌∙◌, subst, Bool, true,
  false, leb, if◌then◌else◌, Bool-cases, ◌⊎◌, inl, inr, Option, none, some, arith,
}
use native.Mathlib.Decide.{dec_lt}
use native.Mathlib.Nat.{mod-eq_of_lt}

module _ (free : ℕ → Bool) (clock : ℕ → ℕ) where
  -- The loop of `TryCreateScopedSpinGuard`, from an attempt on; `none` is a loop that runs on.
  pub attempt : ℕ → ℕ → ℕ → Option Bool
  attempt zero i clock_end = none
  attempt (suc rounds) i clock_end =
      let later = attempt rounds (suc i) clock_end in
      if free i then some true else if leb clock_end (clock (suc i)) then some false else later

  -- `TryCreateScopedSpinGuard`: whether the lock was taken.
  unfoldable pub try_create_scoped_spin_guard : ℕ → ℕ → Option Bool
  unfolding attempt
  try_create_scoped_spin_guard rounds timeout_nanos =
      attempt rounds 0 ((clock 0 + timeout_nanos) % 2 ^ 64)

  -- How the attempts end: all but the last found the lock taken, and the last found it free, or found
  -- it taken too and the time was over.
  abbrev pub Attempts : ℕ → ℕ → Option Bool → Type 0
  Attempts i clock_end r =
      (n : ℕ) × (i ≤ n)
      × ((j : ℕ) → i ≤ j → j < n → free j ≡ false)
      × (((free n ≡ true) × (r ≡ some true))
          ⊎ ((free n ≡ false) × (clock_end ≤ clock (suc n)) × (r ≡ some false)))

  attempt-free :
      (rounds i clock_end : ℕ) → free i ≡ true → attempt (suc rounds) i clock_end ≡ some true
  unfolding attempt
  attempt-free rounds i clock_end h = rw (attempt, h) refl

  attempt_over :
      (rounds i clock_end : ℕ)
      → free i ≡ false
      → clock_end ≤ clock (suc i)
      → attempt (suc rounds) i clock_end ≡ some false
  unfolding attempt
  attempt_over rounds i clock_end h k =
      let l : leb clock_end (clock (suc i)) ≡ true = ground arith in rw (attempt, h, l) refl

  attempt_again :
      (rounds i clock_end : ℕ)
      → free i ≡ false
      → clock (suc i) < clock_end
      → attempt (suc rounds) i clock_end ≡ attempt rounds (suc i) clock_end
  unfolding attempt
  attempt_again rounds i clock_end h k =
      let l : leb clock_end (clock (suc i)) ≡ false = ground arith in rw (attempt, h, l) refl

  first_attempt :
      (i n : ℕ)
      → free i ≡ false
      → ((j : ℕ) → suc i ≤ j → j < n → free j ≡ false)
      → (j : ℕ) → i ≤ j
      → j < n
      → free j ≡ false
  first_attempt i n h k j a b = elim (dec_lt i j) [
    | yes l ↦ k j l b
    | no l ↦ let e : i ≡ j = omega (arith, a, l) in subst (λ x. free x ≡ false) e h
  ]

  attempt_or_later :
      (rounds i clock_end : ℕ)
      → (clock (suc i) < clock_end → Attempts (suc i) clock_end (attempt rounds (suc i) clock_end))
      → Attempts i clock_end (attempt (suc rounds) i clock_end)
  attempt_or_later rounds i clock_end later = elim (Bool-cases (free i)) [
    | inl a ↦ (
      i,
      omega arith,
      (λ j k l. absurd (omega (arith, k, l))),
      inl (a, attempt-free rounds i clock_end a),
    )
    | inr a ↦ elim (dec_lt (clock (suc i)) clock_end) [
      | no l ↦ (
        i,
        omega arith,
        (λ j k m. absurd (omega (arith, k, m))),
        inr (a, omega (arith, l), attempt_over rounds i clock_end a (omega (arith, l))),
      )
      | yes l ↦
          let (n, k, taken, ends) = later l in
          let e = attempt_again rounds i clock_end a l in
          (
            n,
            omega (arith, k),
            first_attempt i n a taken,
            subst
                (λ r.
                  ((free n ≡ true) × (r ≡ some true))
                  ⊎ ((free n ≡ false) × (clock_end ≤ clock (suc n)) × (r ≡ some false)))
                (sym e) ends,
          )
    ]
  ]

  attempt-Attempts :
      (d i clock_end : ℕ)
      → clock_end ≤ clock (suc (i + d))
      → Attempts i clock_end (attempt (suc d) i clock_end)
  attempt-Attempts zero i clock_end h = attempt_or_later zero i clock_end (λ l.
      let e : suc (i + 0) ≡ suc i = omega arith in
      absurd (omega (arith, subst (λ x. clock_end ≤ clock x) e h, l)))
  attempt-Attempts (suc d) i clock_end h = attempt_or_later (suc d) i clock_end (λ l.
      let e : suc (i + suc d) ≡ suc (suc i + d) = omega arith in
      attempt-Attempts d (suc i) clock_end (subst (λ x. clock_end ≤ clock x) e h))

  slept :
      (i : ℕ)
      → clock 0 ≤ clock 1
      → ((j : ℕ) → clock (suc j) + 10 ≤ clock (suc (suc j)))
      → clock 0 + 10 * i ≤ clock (suc i)
  slept zero h k = omega (arith, h)
  slept (suc i) h k = omega (arith, slept i h k, k i)

  -- Where the clock does not run backwards, and a sleep between two attempts takes its 10
  -- nanoseconds at least, the call ends after at most one round for each 10 nanoseconds of the
  -- timeout and two more: with the lock at the first attempt that finds it free, or without it when
  -- the time is over.
  pub try_create-Attempts :
      (timeout_nanos : ℕ)
      → clock 0 + timeout_nanos < 2 ^ 64
      → clock 0 ≤ clock 1
      → ((j : ℕ) → clock (suc j) + 10 ≤ clock (suc (suc j)))
      → Attempts 0
          (clock 0 + timeout_nanos)
          (try_create_scoped_spin_guard (suc (timeout_nanos / 10 + 1)) timeout_nanos)
  unfolding try_create_scoped_spin_guard
  try_create-Attempts timeout_nanos h k l =
      let d = timeout_nanos / 10 + 1 in
      let e : 0 + d ≡ d = omega arith in
      rw (mod-eq_of_lt h) (
        attempt-Attempts d 0 (clock 0 + timeout_nanos) (
          subst (λ x. clock 0 + timeout_nanos ≤ clock (suc x)) (sym e)
            (omega (arith, slept d k l))))

  -- With no timeout there is one attempt.
  pub try_create_once :
      (rounds : ℕ)
      → clock 0 < 2 ^ 64
      → clock 0 ≤ clock 1
      → try_create_scoped_spin_guard (suc rounds) 0 ≡ some (free 0)
  unfolding try_create_scoped_spin_guard
  try_create_once rounds h k =
      let e : (clock 0 + 0) % 2 ^ 64 ≡ clock 0 = omega (arith, h) in
      rw e (elim (Bool-cases (free 0)) [
        | inl a ↦ attempt-free rounds 0 (clock 0) a ∙ ap some (sym a)
        | inr a ↦ attempt_over rounds 0 (clock 0) a k ∙ ap some (sym a)
      ])
