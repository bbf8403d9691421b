-- ===== src/Minidump/Layout.antt =====
-- C structures without padding, as the headers of the minidump format declare them: the place of
-- a field in its structure, and the value of a field of a structure that stands in a file.
use Prim.Native.Nat.{max}
use Prim.Native.String.{String}
use crashkit.Prelude.{
  ℕ, ◌+◌, ◌*◌, ◌/◌, Option, none, some, List, [], ◌∷◌, leb, if◌then◌else◌, length, take, drop,
  ◌>>=◌,
}
use crashkit.Prelude.Bytes.{Bytes, codes, ◌=b◌}

-- Unsigned integers of some bytes, arrays, structures and unions.
mutual
  pub data CType : Type 0 where
    uint : ℕ → CType
    array : CType → ℕ → CType
    struct : Fields → CType
    union : Fields → CType

  pub data Fields : Type 0 where
    end : Fields
    field : Bytes → CType → Fields → Fields

abbrev pub u8 : CType
u8 = uint 1

abbrev pub u16 : CType
u16 = uint 2

abbrev pub u32 : CType
u32 = uint 4

abbrev pub u64 : CType
u64 = uint 8

abbrev pub fields : List (String × CType) → Fields
fields [] = end
fields ((name, t) ∷ fs) = field (codes name) t (fields fs)

-- `packed, aligned(4)`: no padding between the fields, and the whole rounded up.
unfoldable pub align4 : ℕ → ℕ
align4 n = (n + 3) / 4 * 4

unfoldable mutual
  unfolding align4

  pub size_of : CType → ℕ
  size_of (uint w) = w
  size_of (array t n) = n * size_of t
  size_of (struct fs) = align4 (extent fs)
  size_of (union fs) = align4 (widest fs)

  pub extent : Fields → ℕ
  extent end = 0
  extent (field name t fs) = size_of t + extent fs

  pub widest : Fields → ℕ
  widest end = 0
  widest (field name t fs) = max (size_of t) (widest fs)

-- The offset and the type of a field.
unfoldable pub struct_field : Bytes → Fields → Option (ℕ × CType)
struct_field name end = none
struct_field name (field other t fs) =
    let rest = struct_field name fs in
    if name =b other then some (0, t) else (rest >>= λ (m : ℕ × CType). some (size_of t + m.0, m.1))

unfoldable pub union_field : Bytes → Fields → Option (ℕ × CType)
union_field name end = none
union_field name (field other t fs) =
    let rest = union_field name fs in if name =b other then some (0, t) else rest

unfoldable pub find_field : Bytes → CType → Option (ℕ × CType)
find_field name (uint w) = none
find_field name (array t n) = none
find_field name (struct fs) = struct_field name fs
find_field name (union fs) = union_field name fs

-- `offsetof` along a path of names.
unfoldable pub member : List String → CType → Option (ℕ × CType)
member [] t = some (0, t)
member (name ∷ path) t = find_field (codes name) t >>= λ (m : ℕ × CType).
    member path m.1 >>= λ (k : ℕ × CType). some (m.0 + k.0, k.1)

-- A little-endian number.
unfoldable pub little_endian : Bytes → ℕ
little_endian [] = 0
little_endian (b ∷ bs) = b + 256 * little_endian bs

-- `n` bytes of a file, if they are there.
unfoldable pub slice : ℕ → Bytes → ℕ → Option Bytes
slice n bytes off = if leb (off + n) (length bytes) then some (take n (drop off bytes)) else none

unfoldable pub unpack : ℕ → Bytes → ℕ → Option ℕ
unpack n bytes off = slice n bytes off >>= λ b. some (little_endian b)

-- The value of a field of a structure that stands at an address of a file.
unfoldable pub number_at : CType → Bytes → ℕ → Option ℕ
number_at (uint w) bytes off = unpack w bytes off
number_at (array t n) bytes off = none
number_at (struct fs) bytes off = none
number_at (union fs) bytes off = none

unfoldable pub field_at : CType → List String → Bytes → ℕ → Option ℕ
field_at t path bytes rva = member path t >>= λ (m : ℕ × CType). number_at m.1 bytes (rva + m.0)
