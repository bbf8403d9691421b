-- ===== src/Minidump/Total.antt =====
-- The reader tests every place of the file before it unpacks.
pub mod Streams
pub mod Annotations
pub mod Parse
use crashkit.Prelude.{
  inl, inr, ℕ, zero, suc, ◌+◌, ◌*◌, ◌≤◌, ◌<◌, ◌≡◌, refl, Bool, true, false, not, ◌||◌, Option, none,
  some, List, [], ◌∷◌, ltb, leb, ◌==◌, if◌then◌else◌, length, take, drop, ◌>>=◌, Bool-cases,
  ltb-false, lt→ltb, arith,
}
use native.Mathlib.Decide.{dec_lt}
use crashkit.Prelude.Bytes.{Bytes}
use crashkit.Minidump.Layout.{unpack, slice, little_endian}
use crashkit.Minidump.Reader.{Text, Codecs, read_string}

-- A call that gives a value.
abbrev pub Returns : {A : Type 0} → Option A → Type 0
Returns {A} m = (a : A) × (m ≡ some a)

module _ {A : Type 0} where
  pub some-Returns : (a : A) → Returns (some a)
  some-Returns a = (a, refl)

  pub if-Returns :
      (b : Bool) {x y : Option A} → Returns x → Returns y → Returns (if b then x else y)
  if-Returns true h k = h
  if-Returns false h k = k

  pub ltb-Returns :
      (a b : ℕ) {x y : Option A}
      → Returns x
      → (b ≤ a → Returns y)
      → Returns (if ltb a b then x else y)
  ltb-Returns a b {x} {y} h k = elim (dec_lt a b) [
    | yes l ↦ rw (lt→ltb a b l) h
    | no l ↦ rw (ltb-false a b (omega (arith, l))) (k (omega (arith, l)))
  ]

  pub leb-Returns :
      (a b : ℕ) {x y : Option A}
      → (a ≤ b → Returns x)
      → Returns y
      → Returns (if leb a b then x else y)
  leb-Returns a b {x} {y} h k = elim (Bool-cases (leb a b)) [
    | inl e ↦ rw e (h (ground (arith, e)))
    | inr e ↦ rw e k
  ]

  pub bind-Returns :
      {B : Type 0} (m : Option B) {k : B → Option A}
      → Returns m
      → ((b : B) → Returns (k b))
      → Returns (m >>= k)
  bind-Returns m (b, e) h = rw e (h b)

  pub unpack-Returns :
      (n : ℕ) (bytes : Bytes) (off : ℕ) {k : ℕ → Option A}
      → off + n ≤ length bytes
      → ((v : ℕ) → Returns (k v))
      → Returns (unpack n bytes off >>= k)
  unfolding unpack slice
  unpack-Returns n bytes off h k =
      let e : leb (off + n) (length bytes) ≡ true = ground (arith, h) in
      rw e (k (little_endian (take n (drop off bytes))))

pub read_string-Returns :
    (decode : Bytes → Text) (bytes : Bytes) (rva : ℕ) → Returns (read_string decode bytes rva)
unfolding read_string
read_string-Returns decode bytes rva = elim (Bool-cases (rva == 0)) [
  | inl e ↦ rw e (some-Returns [])
  | inr e ↦ rw e (
      ltb-Returns (length bytes) (rva + 4) (some-Returns []) (λ l.
        unpack-Returns 4 bytes rva l (λ n.
          if-Returns (ltb (length bytes) (rva + 4 + n)) (some-Returns [])
            (some-Returns (decode (take n (drop (rva + 4) bytes)))))))
]
