-- ===== src/Dictionary/Slots.antt =====
-- The dictionary by recursion on its entries: what a key's first entry holds, and the update of
-- the first entry that passes a test.
use crashkit.Prelude.{
  ℕ, zero, suc, ◌≡◌, refl, ap, Bool, true, false, not, ◌||◌, Option, none, some, List, [], ◌∷◌,
  arith, if◌then◌else◌, modify, find_index, All, inl, inr, Option-cases,
}
use crashkit.Prelude.Bytes.{Bytes, until_nul, ◌=b◌}
use crashkit.Dictionary.{Entry, is_active, value_at}

-- The entry's key, as a C string, is `key`.
abbrev pub named : Bytes → Entry → Bool
named key e = key =b until_nul e.key

abbrev pub inactive : Entry → Bool
inactive e = not (is_active e)

abbrev pub any : (Entry → Bool) → List Entry → Bool
any p [] = false
any p (e ∷ d) = p e || any p d

abbrev pub update : (Entry → Bool) → (Entry → Entry) → List Entry → List Entry
update p f [] = []
update p f (e ∷ d) = if p e then f e ∷ d else e ∷ update p f d

-- The value of the first entry that is named by the key.
abbrev pub first_value : Bytes → List Entry → Option Bytes
first_value key [] = none
first_value key (e ∷ d) = if named key e then some (until_nul e.value) else first_value key d

pub modify-eq-update :
    (p : Entry → Bool) (f : Entry → Entry) (d : List Entry) (i : ℕ)
    → find_index p d ≡ some i
    → modify d i f ≡ update p f d
modify-eq-update p f [] i h = cc
modify-eq-update p f (e ∷ d) zero h = elim (Option-cases (find_index p d)) [
  | inl n ↦ ground arith
  | inr (j, n) ↦ ground arith
]
modify-eq-update p f (e ∷ d) (suc i) h = ground (arith, modify-eq-update p f d i)

pub any_of_find_index :
    (p : Entry → Bool) (d : List Entry) (i : ℕ) → find_index p d ≡ some i → any p d ≡ true
any_of_find_index p [] i h = cc
any_of_find_index p (e ∷ d) i h = elim (Option-cases (find_index p d)) [
  | inl n ↦ ground arith
  | inr (j, n) ↦ ground (arith, any_of_find_index p d j n)
]

pub not_any_of_find_index :
    (p : Entry → Bool) (d : List Entry) → find_index p d ≡ none → any p d ≡ false
not_any_of_find_index p [] h = refl
not_any_of_find_index p (e ∷ d) h = ground (arith, not_any_of_find_index p d)

pub modify-modify :
    (d : List Entry) (i : ℕ) (f g : Entry → Entry)
    → modify (modify d i f) i g ≡ modify d i (λ e. g (f e))
modify-modify [] i f g = refl
modify-modify (e ∷ d) zero f g = refl
modify-modify (e ∷ d) (suc i) f g = ap (λ r. e ∷ r) (modify-modify d i f g)

-- Two tests that agree on the entries find the same one.
pub find_index-ext :
    (p q : Entry → Bool) (d : List Entry) → All (λ e. p e ≡ q e) d → find_index p d ≡ find_index q d
find_index-ext p q [] h = refl
find_index-ext p q (e ∷ d) h = ground (arith, h.0, find_index-ext p q d h.1)

pub value_at-find :
    (key : Bytes) (d : List Entry) → value_at (find_index (named key) d) d ≡ first_value key d
unfolding value_at
value_at-find key [] = refl
value_at-find key (e ∷ d) = elim (Option-cases (find_index (named key) d)) [
  | inl n ↦ ground (arith, value_at-find key d)
  | inr (j, n) ↦ ground (arith, value_at-find key d)
]
