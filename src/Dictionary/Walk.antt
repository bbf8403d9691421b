-- ===== src/Dictionary/Walk.antt =====
-- The iterator: calling `Next` until it gives null.
use crashkit.Prelude.{
  ℕ, zero, suc, ◌+◌, ◌-◌, ◌≤◌, ◌<◌, ◌≡◌, refl, ap, ◌∙◌, sym, subst, false, Option, none, some, List,
  [], ◌∷◌, arith, length, drop, inl, inr, Bool-cases,
}
use crashkit.Dictionary.{Entry, is_active, Iterator, next_from, iterator_next}
use crashkit.Dictionary.Count.{actives, length-actives-le}

-- The entries in use that are still to come.
abbrev pub ahead : Iterator → List Entry
ahead it = actives (drop it.current it.entries)

-- A result of `Next`, followed by what is then to come.
abbrev followed : List Entry → ℕ → Option Entry × ℕ → List Entry
followed es current (none, later) = []
followed es current (some e, later) = e ∷ actives (drop (later - current) es)

record IsNext (es : List Entry) (current : ℕ) (r : Option Entry × ℕ) : Type 0 where
  forward : current ≤ r.1
  gives : actives es ≡ followed es current r

followed-cons :
    (e : Entry) (es : List Entry) (current : ℕ) (r : Option Entry × ℕ)
    → current + 1 ≤ r.1
    → followed es (current + 1) r ≡ followed (e ∷ es) current r
followed-cons e es current (none, later) h = refl
followed-cons e es current (some x, later) h =
    let k : later - current ≡ suc (later - (current + 1)) = omega (arith, h) in
    ap (λ n. x ∷ actives (drop n (e ∷ es))) (sym k)

passed_over : (e : Entry) (es : List Entry) → is_active e ≡ false → actives (e ∷ es) ≡ actives es
unfolding actives
passed_over e es a = rw a

next_from-IsNext : (current : ℕ) (es : List Entry) → IsNext es current (next_from current es)
unfolding next_from
next_from-IsNext current [] = record { forward = omega arith; gives = unfold actives in refl }
next_from-IsNext current (e ∷ es) = elim (Bool-cases (is_active e)) [
  | inl a ↦
      let k : current + 1 - current ≡ 1 = omega arith in
      rw a (record { forward = omega arith; gives = rw k (unfold actives in rw a refl) })
  | inr a ↦
      let k = next_from-IsNext (current + 1) es in
      rw a (record {
        forward = omega (arith, k.forward);
        gives = passed_over e es a ∙ k.gives ∙ followed-cons e es current _ k.forward;
      })
]

drop-nil : (n : ℕ) → drop {A = Entry} n [] ≡ []
drop-nil zero = refl
drop-nil (suc n) = refl

drop-drop : (a b : ℕ) (es : List Entry) → drop a (drop b es) ≡ drop (b + a) es
drop-drop a zero es = ap (λ n. drop n es) (omega arith)
drop-drop a (suc b) [] = drop-nil a ∙ sym (drop-nil (suc b + a))
drop-drop a (suc b) (e ∷ es) =
    let k : suc b + a ≡ suc (b + a) = omega arith in
    drop-drop a b es ∙ ap (λ n. drop n (e ∷ es)) (sym k)

-- A result of `Next` and what is then to come, in one list.
abbrev in_order : Option Entry × Iterator → List Entry
in_order (none, it) = []
in_order (some e, it) = e ∷ ahead it

followed-in_order :
    (it : Iterator) (r : Option Entry × ℕ)
    → it.current ≤ r.1
    → followed (drop it.current it.entries) it.current r
      ≡ in_order (r.0, record it { current = r.1 })
followed-in_order it (none, later) h = refl
followed-in_order it (some e, later) h =
    let k : it.current + (later - it.current) ≡ later = omega (arith, h) in
    ap (λ es. e ∷ actives es)
      (drop-drop (later - it.current) it.current it.entries ∙ ap (λ n. drop n it.entries) k)

ahead-eq : (it : Iterator) → ahead it ≡ in_order (iterator_next it)
unfolding iterator_next
ahead-eq it =
    let k = next_from-IsNext it.current (drop it.current it.entries) in
    k.gives ∙ followed-in_order it _ k.forward

abbrev gathered : Option Entry → Option (List Entry) → Option (List Entry)
gathered none later = some []
gathered (some e) none = none
gathered (some e) (some es) = some (e ∷ es)

-- What `Next` gives when it is called until it returns null, in at most so many calls.
pub collect : ℕ → Iterator → Option (List Entry)
collect zero it = none
collect (suc calls) it = let (found, it') = iterator_next it in gathered found (collect calls it')

gathered-in_order :
    (calls : ℕ) (r : Option Entry × Iterator)
    → (length (ahead r.1) < calls → collect calls r.1 ≡ some (ahead r.1))
    → length (in_order r) ≤ calls
    → gathered r.0 (collect calls r.1) ≡ some (in_order r)
gathered-in_order calls (none, it) k h = refl
gathered-in_order calls (some e, it) k h = rw (k (omega (arith, h))) refl

collect-ahead :
    (calls : ℕ) (it : Iterator) → length (ahead it) < calls → collect calls it ≡ some (ahead it)
unfolding collect
collect-ahead zero it h = absurd (omega (arith, h))
collect-ahead (suc calls) it h = rw (ahead-eq it) (
    gathered-in_order calls (iterator_next it) (collect-ahead calls (iterator_next it).1)
      (subst (λ es. length es ≤ calls) (ahead-eq it) (omega (arith, h))))

-- Calling `Next` on a new iterator until it returns null gives the entries in use, in order, and
-- null comes after at most one call more than there are entries.
pub collect-actives :
    (d : List Entry)
    → collect (length d + 1) (record { entries = d; current = 0 }) ≡ some (actives d)
collect-actives d = collect-ahead (length d + 1) _ (omega (arith, length-actives-le d))
