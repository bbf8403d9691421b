-- ===== src/Minidump/Dict.antt =====
-- Python's `dict` as the reader uses it: `d[key] = value`, in the order of the first writes.
use crashkit.Prelude.{
  ◌≡◌, refl, ◌↔◌, Bool, true, false, Option, none, some, List, [], ◌∷◌, arith, if◌then◌else◌,
}

-- The first of two values that is there.
abbrev pub or_else {ℓ} : {A : Type ℓ} → Option A → Option A → Option A
or_else none o = o
or_else (some v) o = some v

pub or_else-none {ℓ} : {A : Type ℓ} (o : Option A) → or_else o none ≡ o
or_else-none none = refl
or_else-none (some v) = refl

pub or_else-if {ℓ} :
    {A : Type ℓ} (o g : Option A) (b : Bool) (v : A)
    → or_else o (if b then some v else g) ≡ or_else (or_else o (if b then some v else none)) g
or_else-if none g true v = refl
or_else-if none g false v = refl
or_else-if (some w) g b v = refl

module _ {ℓ κ} {K : Type ℓ} {V : Type κ} (eq : K → K → Bool) where
  unfoldable pub set_item : K → V → List (K × V) → List (K × V)
  set_item k v [] = (k, v) ∷ []
  set_item k v ((j, w) ∷ d) =
      let rest = set_item k v d in if eq k j then (j, v) ∷ d else (j, w) ∷ rest

  unfoldable pub get_item : K → List (K × V) → Option V
  get_item k [] = none
  get_item k ((j, w) ∷ d) = let rest = get_item k d in if eq k j then some w else rest

  pub get_item-set_item :
      ((j k : K) → (eq j k ≡ true) ↔ (j ≡ k))
      → (k j : K) (v : V) (d : List (K × V))
      → get_item j (set_item k v d) ≡ (if eq j k then some v else get_item j d)
  unfolding get_item set_item
  get_item-set_item e k j v [] = ground (arith, e j k)
  get_item-set_item e k j v ((i, w) ∷ d) =
      ground (arith, e k i, e j i, e j k, get_item-set_item e k j v d)
