-- ===== src/StdMap/Order.antt =====
-- The entries stay in strictly increasing order, so every key stands once.
use crashkit.Prelude.{◌≡◌, refl, true, false, [], ◌∷◌, arith, All}
use crashkit.Prelude.Bytes.{Bytes, bytes_lt, ◌=b◌, =b_iff}
use crashkit.StdMap.{StdMap, put}

bytes_lt_trans : (a b c : Bytes) → bytes_lt a b ≡ true → bytes_lt b c ≡ true → bytes_lt a c ≡ true
unfolding bytes_lt
bytes_lt_trans [] [] c h k = cc
bytes_lt_trans [] (y ∷ b) [] h k = cc
bytes_lt_trans [] (y ∷ b) (z ∷ c) h k = refl
bytes_lt_trans (x ∷ a) [] c h k = cc
bytes_lt_trans (x ∷ a) (y ∷ b) [] h k = cc
bytes_lt_trans (x ∷ a) (y ∷ b) (z ∷ c) h k = ground (arith, bytes_lt_trans a b c)

bytes_lt_total : (a b : Bytes) → (a =b b) ≡ false → bytes_lt a b ≡ false → bytes_lt b a ≡ true
unfolding bytes_lt ◌=b◌
bytes_lt_total [] [] h k = cc
bytes_lt_total [] (y ∷ b) h k = cc
bytes_lt_total (x ∷ a) [] h k = refl
bytes_lt_total (x ∷ a) (y ∷ b) h k = ground (arith, bytes_lt_total a b)

abbrev pub Below : Bytes → StdMap → Type 0
Below k m = All (λ e. bytes_lt k e.0 ≡ true) m

abbrev pub IsSorted : StdMap → Type 0
IsSorted [] = Unit
IsSorted ((k, v) ∷ m) = Below k m × IsSorted m

Below-trans : (a b : Bytes) (m : StdMap) → bytes_lt a b ≡ true → Below b m → Below a m
Below-trans a b [] h k = tt
Below-trans a b ((j, w) ∷ m) h k = (bytes_lt_trans a b j h k.0, Below-trans a b m h k.1)

Below-put : (a k v : Bytes) (m : StdMap) → bytes_lt a k ≡ true → Below a m → Below a (put k v m)
unfolding put
Below-put a k v [] h b = (h, tt)
Below-put a k v ((j, w) ∷ m) h b = ground (arith, Below-put a k v m h b.1)

pub put-IsSorted : (k v : Bytes) (m : StdMap) → IsSorted m → IsSorted (put k v m)
unfolding put
put-IsSorted k v [] s = (tt, tt)
put-IsSorted k v ((j, w) ∷ m) s = ground (
  arith,
  =b_iff k j,
  bytes_lt_total k j,
  Below-trans k j m,
  Below-put j k v m,
  put-IsSorted k v m s.1,
)
