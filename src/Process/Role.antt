-- ===== src/Process/Role.antt =====
-- The role of a process name against an independent description: what follows the first colon,
-- trimmed at both ends, with every unfriendly byte replaced.
pub mod Friendly
use crashkit.Prelude.{
  ℕ, zero, suc, ◌+◌, ◌-◌, ◌≤◌, ◌≡◌, refl, ap, ◌∙◌, sym, Bool, Option, none, some, [], ◌∷◌, ◌++◌,
  map, arith, ◌==◌, if◌then◌else◌, take, drop, Option-cases, inl, inr,
}
use mathlib.Core.List.{append-nil, append_assoc}
use native.Mathlib.Numerals.{add-one}
use crashkit.Prelude.Bytes.{Bytes}
use crashkit.Process.{
  find, find_first_not_of, find_last_not_of, is_space, sanitize, clean_from, main_role,
  role_of_suffix, role_between, process_role_from_name,
}

-- What follows the first `c`.
after : ℕ → Bytes → Option Bytes
after c [] = none
after c (b ∷ s) = let rest = after c s in if b == c then some s else rest

drop_while : (ℕ → Bool) → Bytes → Bytes
drop_while p [] = []
drop_while p (b ∷ s) = let rest = drop_while p s in if p b then rest else b ∷ s

-- Without the longest end whose bytes all satisfy `p`.
drop_end : (ℕ → Bool) → Bytes → Bytes
drop_end p [] = []
drop_end p (b ∷ s) = elim (drop_end p s) [ [] ↦ if p b then [] else b ∷ [] | c ∷ r ↦ b ∷ c ∷ r ]

pub trim : Bytes → Bytes
unfolding drop_while drop_end
trim s = drop_end is_space (drop_while is_space s)

abbrev pub role_or_main : Bytes → Bytes
role_or_main [] = main_role
role_or_main (c ∷ s) = map sanitize (c ∷ s)

pub role_spec : Bytes → Bytes
unfolding after trim
role_spec name = elim (after b':' name) [ none ↦ main_role | some s ↦ role_or_main (trim s) ]

clean_from-eq-map : (clean s : Bytes) → clean_from clean s ≡ clean ++ map sanitize s
unfolding clean_from
clean_from-eq-map clean [] = sym (append-nil clean)
clean_from-eq-map clean (c ∷ s) =
    rw (clean_from-eq-map (clean ++ sanitize c ∷ []) s)
      (append_assoc clean (sanitize c ∷ []) (map sanitize s))

role_of_suffix-eq : (s : Bytes) → role_of_suffix s ≡ role_or_main s
unfolding role_of_suffix
role_of_suffix-eq [] = refl
role_of_suffix-eq (c ∷ s) = rw (clean_from-eq-map (sanitize c ∷ []) s)

drop_next : (i b : ℕ) (s : Bytes) → drop (i + 1) (b ∷ s) ≡ drop i s
drop_next i b s = rw add-one

take_next : (i b : ℕ) (s : Bytes) → take (i + 1) (b ∷ s) ≡ b ∷ take i s
take_next i b s = rw add-one

abbrev cut_after : Option ℕ → Bytes → Option Bytes
cut_after none s = none
cut_after (some i) s = some (drop (i + 1) s)

abbrev cut_from : Option ℕ → Bytes → Bytes
cut_from none s = []
cut_from (some i) s = drop i s

abbrev cut_to : Option ℕ → Bytes → Bytes
cut_to none s = []
cut_to (some i) s = take (i + 1) s

after-eq-find : (c : ℕ) (s : Bytes) → after c s ≡ cut_after (find c s) s
unfolding find after
after-eq-find c [] = refl
after-eq-find c (b ∷ s) = elim (Option-cases (find c s)) [
  | inl e ↦ rw (e, after-eq-find c s, find) (rw e (ground (arith, drop_next 0 b s)))
  | inr (i, e) ↦
      rw (e, after-eq-find c s, find)
        (rw e (ground (arith, drop_next 0 b s, drop_next (suc i) b s, drop_next i b s)))
]

module _ (p : ℕ → Bool) where
  drop_while-eq-find : (s : Bytes) → drop_while p s ≡ cut_from (find_first_not_of p s) s
  unfolding drop_while find_first_not_of
  drop_while-eq-find [] = refl
  drop_while-eq-find (b ∷ s) = elim (Option-cases (find_first_not_of p s)) [
    | inl e ↦ ground (arith, e, drop_while-eq-find s)
    | inr (i, e) ↦ ground (arith, e, drop_while-eq-find s)
  ]

  abbrev later_last : Bool → Option ℕ → Option ℕ
  later_last here none = if here then none else some 0
  later_last here (some i) = some (suc i)

  find_last-cons :
      (b : ℕ) (s : Bytes) → find_last_not_of p (b ∷ s) ≡ later_last (p b) (find_last_not_of p s)
  unfolding find_last_not_of
  find_last-cons b s = ground arith

  cut_to-cons :
      (b : ℕ) (s : Bytes) (o : Option ℕ)
      → find_last_not_of p s ≡ o
      → drop_end p s ≡ cut_to o s
      → drop_end p (b ∷ s) ≡ cut_to (later_last (p b) o) (b ∷ s)
  unfolding drop_end find_last_not_of
  cut_to-cons b s none e h = rw h (ground (arith, take_next 0 b s))
  cut_to-cons b [] (some i) e h = cc
  cut_to-cons b (c ∷ s) (some i) e h = rw (h, take_next i c s, take_next (suc i) b (c ∷ s))

  drop_end-eq-find : (s : Bytes) → drop_end p s ≡ cut_to (find_last_not_of p s) s
  drop_end-eq-find [] = unfold drop_end find_last_not_of in refl
  drop_end-eq-find (b ∷ s) =
      rw find_last-cons (cut_to-cons b s (find_last_not_of p s) refl (drop_end-eq-find s))

  find_first-le-find_last :
      (s : Bytes) (l : ℕ)
      → find_first_not_of p s ≡ some l
      → (r : ℕ) × (find_last_not_of p s ≡ some r) × (l ≤ r)
  unfolding find_first_not_of find_last_not_of
  find_first-le-find_last [] l h = cc
  find_first-le-find_last (b ∷ s) l h = elim (Option-cases (find_first_not_of p s)) [
    | inl e ↦ elim (Option-cases (find_last_not_of p s)) [
      | inl e' ↦ (0, ground arith, ground arith)
      | inr (r, e') ↦ (suc r, ground arith, ground arith)
    ]
    | inr (i, e) ↦
        let (r, e', k) = find_first-le-find_last s i e in (suc r, ground arith, ground arith)
  ]

  find_last-drop :
      (s : Bytes) (l r : ℕ)
      → find_last_not_of p s ≡ some r
      → l ≤ r
      → find_last_not_of p (drop l s) ≡ some (r - l)
  unfolding find_last_not_of
  find_last-drop s zero r h k = rw h (ap some (omega arith))
  find_last-drop [] (suc l) r h k = cc
  find_last-drop (b ∷ s) (suc l) zero h k = absurd (omega arith)
  find_last-drop (b ∷ s) (suc l) (suc r) h k =
      find_last-drop s l r (ground arith) (omega arith) ∙ ap some (omega arith)

-- The two searches cut out what trimming leaves.
trim-eq-between :
    (s : Bytes)
    → role_between (find_first_not_of is_space s) (find_last_not_of is_space s) s
      ≡ role_or_main (trim s)
unfolding role_between trim
trim-eq-between s = elim (Option-cases (find_first_not_of is_space s)) [
  | inl e ↦ rw (e, drop_while-eq-find is_space s) (rw e (unfold drop_end in refl))
  | inr (l, e) ↦
      let (r, e', k) = find_first-le-find_last is_space s l e in
      rw (drop_while-eq-find is_space s, drop_end-eq-find is_space, e, e')
        (rw (find_last-drop is_space s l r e' k) (role_of_suffix-eq (take (r - l + 1) (drop l s))))
]

-- For every process name the role is what the independent description gives: `main` if there is
-- no colon or only white space behind the first one, else the trimmed text behind the first colon
-- with each byte outside [a-zA-Z0-9_.-] replaced by an underscore.
pub process_role_from_name-eq-role_spec :
    (name : Bytes) → process_role_from_name name ≡ role_spec name
unfolding process_role_from_name role_spec
process_role_from_name-eq-role_spec name = elim (Option-cases (find b':' name)) [
  | inl e ↦ rw (e, process_role_from_name, after-eq-find b':' name, role_spec) (rw e)
  | inr (i, e) ↦
      rw (e, process_role_from_name, after-eq-find b':' name, role_spec)
        (rw e (trim-eq-between (drop (i + 1) name)))
]
