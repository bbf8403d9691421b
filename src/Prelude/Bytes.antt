-- ===== src/Prelude/Bytes.antt =====
-- Byte strings: `std::string` and the bytes of a C string, as lists of numbers.
use Prim.Native.Char.{code}
use Prim.Native.Nat.{ℕ, ◌≤◌, compare, Ordering}
use Prim.Native.String.{String}
use mathlib.Core.Path.{◌≡◌, refl, ap, ◌∙◌, subst}
use mathlib.Core.Logic.{◌≢◌, ◌↔◌}
use mathlib.Core.Bool.{Bool, true, false, ◌&&◌}
use mathlib.Core.List.{List, [], ◌∷◌, ◌++◌}
use mathlib.Core.Option.{Option, none, some}
use native.Mathlib.Omega.{arith}
use crashkit.Prelude.Tests.{◌==◌, leb, if◌then◌else◌}
use crashkit.Prelude.Lists.{All, length, take, length-append, take-length-append}

abbrev pub Bytes : Type 0
Bytes = List ℕ

-- The bytes of an ASCII literal.
abbrev pub codes : String → Bytes
codes String.[] = []
codes (String.◌∷◌ c s) = code c ∷ codes s

infix 50 ◌=b◌
unfoldable pub ◌=b◌ : Bytes → Bytes → Bool
[] =b [] = true
[] =b (y ∷ ys) = false
(x ∷ xs) =b [] = false
(x ∷ xs) =b (y ∷ ys) = x == y && xs =b ys

=b_sound : (a b : Bytes) → (a =b b) ≡ true → a ≡ b
unfolding ◌=b◌
=b_sound [] [] h = refl
=b_sound [] (y ∷ ys) h = cc
=b_sound (x ∷ xs) [] h = cc
=b_sound (x ∷ xs) (y ∷ ys) h = ground (arith, =b_sound xs ys)

pub =b_refl : (a : Bytes) → (a =b a) ≡ true
unfolding ◌=b◌
=b_refl [] = refl
=b_refl (x ∷ xs) = ground (arith, =b_refl xs)

pub =b_iff : (a b : Bytes) → ((a =b b) ≡ true) ↔ (a ≡ b)
=b_iff a b = (=b_sound a b, λ e. subst (λ x. (a =b x) ≡ true) e (=b_refl a))

-- So many bytes from the start of a buffer. A read past its end is undefined: `none`.
unfoldable pub read_memory : ℕ → Bytes → Option Bytes
read_memory n buffer = if leb n (length buffer) then some (take n buffer) else none

pub read_memory-le : (n : ℕ) (b : Bytes) → n ≤ length b → read_memory n b ≡ some (take n b)
unfolding read_memory
read_memory-le n b h = ground (arith, h)

pub read_memory-append : (n : ℕ) (a b : Bytes) → n ≡ length a → read_memory n (a ++ b) ≡ some a
read_memory-append n a b h =
    read_memory-le n (a ++ b) (omega (arith, h, length-append {0} a b))
    ∙ ap some (ap (λ i. take i (a ++ b)) h ∙ take-length-append a b)

-- No NUL byte, as in every C string before its terminator.
abbrev pub NulFree : Bytes → Type 0
NulFree s = All (λ b. b ≢ 0) s

-- The bytes before the first NUL: a C string.
unfoldable pub until_nul : Bytes → Bytes
until_nul [] = []
until_nul (b ∷ s) = let rest = until_nul s in if b == 0 then [] else b ∷ rest

pub until_nul-NulFree : (s : Bytes) → NulFree (until_nul s)
unfolding until_nul
until_nul-NulFree [] = tt
until_nul-NulFree (b ∷ s) = ground (arith, until_nul-NulFree s)

pub until_nul-append : (s t : Bytes) → NulFree s → until_nul (s ++ 0 ∷ t) ≡ s
unfolding until_nul
until_nul-append [] t h = refl
until_nul-append (b ∷ s) t h = ground (arith, until_nul-append s t h.1)

pub length-until_nul-le : (s : Bytes) → length (until_nul s) ≤ length s
unfolding until_nul
length-until_nul-le [] = omega arith
length-until_nul-le (b ∷ s) = ground (arith, length-until_nul-le s)

-- The order of `std::less<std::string>`: byte by byte, a proper prefix first.
unfoldable pub bytes_lt : Bytes → Bytes → Bool
bytes_lt [] [] = false
bytes_lt [] (y ∷ ys) = true
bytes_lt (x ∷ xs) [] = false
bytes_lt (x ∷ xs) (y ∷ ys) =
    let rest = bytes_lt xs ys in
    elim (compare x y) [ Ordering.lt ↦ true | Ordering.eq ↦ rest | Ordering.gt ↦ false ]

-- The test for a string without NUL.
abbrev pub is_nul_free : Bytes → Bool
is_nul_free [] = true
is_nul_free (b ∷ s) = if b == 0 then false else is_nul_free s

pub is_nul_free→NulFree : (s : Bytes) → is_nul_free s ≡ true → NulFree s
is_nul_free→NulFree [] h = tt
is_nul_free→NulFree (b ∷ s) h = ground (arith, h, is_nul_free→NulFree s)
