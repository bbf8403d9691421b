-- ===== src/StdMap.antt =====
-- `std::map<std::string, std::string>` as the bridge uses it: `m[key] = value` and iteration in
-- the order of the keys. The entries stand in that order.
pub mod Order
use crashkit.Prelude.{
  ◌≡◌, refl, Bool, true, false, ◌||◌, Option, none, some, List, [], ◌∷◌, arith, if◌then◌else◌, map,
}
use crashkit.Prelude.Bytes.{Bytes, bytes_lt, ◌=b◌, =b_iff}

abbrev pub StdMap : Type 0
StdMap = List (Bytes × Bytes)

-- `m[key] = value`
unfoldable pub put : Bytes → Bytes → StdMap → StdMap
put k v [] = (k, v) ∷ []
put k v ((j, w) ∷ m) =
    let later = put k v m in
    if k =b j then (k, v) ∷ m else if bytes_lt k j then (k, v) ∷ (j, w) ∷ m else (j, w) ∷ later

unfoldable pub lookup : Bytes → StdMap → Option Bytes
lookup k [] = none
lookup k ((j, w) ∷ m) = if k =b j then some w else lookup k m

abbrev pub keys : StdMap → List Bytes
keys m = map (λ e. e.0) m

-- Membership as a test.
abbrev pub elem : Bytes → List Bytes → Bool
elem k [] = false
elem k (j ∷ js) = k =b j || elem k js

pub lookup-put :
    (k j v : Bytes) (m : StdMap) → lookup j (put k v m) ≡ (if j =b k then some v else lookup j m)
unfolding lookup put
lookup-put k j v [] = refl
lookup-put k j v ((i, w) ∷ m) =
    ground (arith, =b_iff k i, =b_iff j i, =b_iff j k, lookup-put k j v m)

pub elem-put : (k j v : Bytes) (m : StdMap) → elem j (keys (put k v m)) ≡ j =b k || elem j (keys m)
unfolding put
elem-put k j v [] = refl
elem-put k j v ((i, w) ∷ m) = ground (arith, =b_iff k i, =b_iff j i, =b_iff j k, elem-put k j v m)
