-- ===== src/Minidump/Format/Fields.antt =====
-- From the fields of the headers to the offsets at which the reader unpacks them.
use Prim.Native.String.{String}
use crashkit.Prelude.{
  ℕ, ◌+◌, ◌≤◌, ◌≡◌, refl, sym, ap, ◌∙◌, true, some, List, length, leb, arith, take, drop,
  bind-eq-some,
}
use crashkit.Prelude.Bytes.{Bytes}
use crashkit.Minidump.Layout.{
  CType, uint, member, number_at, field_at, unpack, slice, little_endian,
}

-- A field of `w` bytes at offset `o` is what unpacking there gives.
pub unpack-field :
    (t : CType) (path : List String) (bytes : Bytes) (rva w o off : ℕ) {v : ℕ}
    → member path t ≡ some (o, uint w)
    → off ≡ rva + o
    → field_at t path bytes rva ≡ some v
    → unpack w bytes off ≡ some v
unfolding field_at number_at
unpack-field t path bytes rva w o off m e h = ap (unpack w bytes) e ∙ sym (rw m refl) ∙ h

pub slice-le :
    (n : ℕ) (bytes : Bytes) (off : ℕ) {b : Bytes}
    → slice n bytes off ≡ some b
    → off + n ≤ length bytes
unfolding slice
slice-le n bytes off h = ground (arith, h)

pub slice-eq :
    (n : ℕ) (bytes : Bytes) (off : ℕ) {b : Bytes}
    → slice n bytes off ≡ some b
    → take n (drop off bytes) ≡ b
unfolding slice
slice-eq n bytes off h = ground (arith, h)

pub unpack-le :
    (n : ℕ) (bytes : Bytes) (off : ℕ) {v : ℕ} → unpack n bytes off ≡ some v → off + n ≤ length bytes
unfolding unpack
unpack-le n bytes off h =
    let go = λ (b : Bytes). some (little_endian b) in
    slice-le n bytes off (bind-eq-some (slice n bytes off) go h).1

-- A number in front of the end of the file can be unpacked.
pub unpack_defined :
    (n : ℕ) (bytes : Bytes) (off : ℕ)
    → off + n ≤ length bytes
    → (v : ℕ) × (unpack n bytes off ≡ some v)
unfolding unpack slice
unpack_defined n bytes off h =
    let e : leb (off + n) (length bytes) ≡ true = ground (arith, h) in
    (little_endian (take n (drop off bytes)), rw e refl)
