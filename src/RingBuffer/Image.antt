-- ===== src/RingBuffer/Image.antt =====
-- The bytes of a `RingBufferData` in memory, as they are written to disk on a little-endian
-- machine, and `DeserializeFromBuffer`.
use crashkit.Prelude.{
  ℕ, suc, ◌+◌, ◌*◌, ◌/◌, ◌%◌, ◌^◌, ◌≤◌, ◌<◌, min, ◌≡◌, refl, sym, ap, ◌∙◌, subst, Bool, true, false,
  not, ◌||◌, ◌==◌, ltb, ltb-false, if◌then◌else◌, [], ◌∷◌, ◌++◌, length, take, drop, get_or,
  take_all, length-append, length-take, length-drop, arith, some, take-length-append,
}
use mathlib.Core.List.{append_assoc, append-nil}
use native.Mathlib.Decide.{dec_lt}
use crashkit.Prelude.Bytes.{Bytes, read_memory, read_memory-le}
use crashkit.RingBuffer.{Range, RingBufferData, overwrite, add32, get_ring_buffer_length}
use crashkit.RingBuffer.Circular.{rot, rot-eq-append, cut, append_cancel}
use crashkit.RingBuffer.Splice.{drop_all}
use crashkit.RingBuffer.Copies.{IsView, fits, add32-small}

-- `kMagic` and `kVersion`
abbrev magic : ℕ
magic = 0xcab00d1e

abbrev version : ℕ
version = 1

-- A 32-bit word in memory.
pub word_bytes : ℕ → Bytes
word_bytes v = v % 256 ∷ v / 2 ^ 8 % 256 ∷ v / 2 ^ 16 % 256 ∷ v / 2 ^ 24 % 256 ∷ []

abbrev word_at : ℕ → Bytes → ℕ
word_at i bytes =
    get_or bytes i 0
    + get_or bytes (i + 1) 0 * 2 ^ 8
    + get_or bytes (i + 2) 0 * 2 ^ 16
    + get_or bytes (i + 3) 0 * 2 ^ 24

-- `Header`, and the bytes behind it.
abbrev header_bytes : Range → Bytes
header_bytes range =
    word_bytes magic ++ (word_bytes version ++ (word_bytes range.offset ++ word_bytes range.length))

pub image : RingBufferData → Bytes
unfolding word_bytes
image ring = header_bytes ring.data_range ++ ring.bytes

-- `DeserializeFromBuffer`
pub deserialize_from_buffer : Bytes → RingBufferData → Bool × RingBufferData
deserialize_from_buffer buffer ring =
    let n = length buffer in
    if ltb n 16 || ltb (16 + length ring.bytes) n
    then (false, ring)
    else if not (word_at 0 buffer == magic) || not (word_at 4 buffer == version)
    then (false, ring)
    else (
      true,
      record {
        data_range = record { offset = word_at 8 buffer; length = word_at 12 buffer };
        bytes = overwrite 0 (drop 16 buffer) ring.bytes;
      },
    )

word_of-bytes :
    (v : ℕ)
    → v < 2 ^ 32
    → v % 256 + v / 2 ^ 8 % 256 * 2 ^ 8 + v / 2 ^ 16 % 256 * 2 ^ 16 + v / 2 ^ 24 % 256 * 2 ^ 24 ≡ v
word_of-bytes v h = omega (arith, h)

-- Reading back a header and the bytes behind it.
deserialize-header :
    (range : Range) (rest : Bytes) (ring : RingBufferData)
    → range.offset < 2 ^ 32
    → range.length < 2 ^ 32
    → length rest ≤ length ring.bytes
    → deserialize_from_buffer (header_bytes range ++ rest) ring
      ≡ (true, record { data_range = range; bytes = overwrite 0 rest ring.bytes })
unfolding deserialize_from_buffer word_bytes
deserialize-header range rest ring h k l =
    let n = length (header_bytes range ++ rest) in
    rw
      (
        ltb-false n 16 (omega arith),
        ltb-false (16 + length ring.bytes) n (omega (arith, l)),
        word_of-bytes range.offset h,
        word_of-bytes range.length k,
      )
      refl

-- The bytes that a range shows stand in front of its end, where that does not go round.
rot_front :
    (o : ℕ) (store shown hidden tail : Bytes)
    → o + length shown ≤ length store
    → rot o store ≡ shown ++ hidden
    → (rest : Bytes) × (rot o (take (o + length shown) store ++ tail) ≡ shown ++ rest)
rot_front o store shown hidden tail h e =
    let (a, b, p, k) = cut o store (omega (arith, h)) in
    let (b1, b2, q, l) =
      cut (length shown) b (omega (arith, h, k, ap length p, length-append {0} a b)) in
    let b1-shown =
      (append_cancel b1 (b2 ++ a) shown hidden l (
        sym (append_assoc b1 b2 a)
        ∙ sym (rot-eq-append o store a (b1 ++ b2) (p ∙ ap (λ x. a ++ x) q) (sym k))
        ∙ e)).0 in
    let parts : store ≡ (a ++ shown) ++ b2 =
      p ∙ ap (λ x. a ++ x) (q ∙ ap (λ x. x ++ b2) b1-shown) ∙ sym (append_assoc a shown b2) in
    let n : length (a ++ shown) ≡ o + length shown = omega (arith, length-append {0} a shown, k) in
    let front : take (o + length shown) store ≡ a ++ shown =
      ap (take (o + length shown)) parts
      ∙ subst (λ i. take i ((a ++ shown) ++ b2) ≡ a ++ shown) n
          (take-length-append (a ++ shown) b2) in
    (
      tail ++ a,
      rot-eq-append o (take (o + length shown) store ++ tail) a (shown ++ tail)
            (ap (λ x. x ++ tail) front ∙ append_assoc a shown tail) (sym k)
          ∙ append_assoc shown tail a,
    )

take_past : (a b : Bytes) (n : ℕ) → take (length a + n) (a ++ b) ≡ a ++ take n b
take_past [] b n = ap (λ i. take i b) (omega arith)
take_past (x ∷ a) b n =
    let k : suc (length a) + n ≡ suc (length a + n) = omega arith in
    rw k (ap (λ l. x ∷ l) (take_past a b n))

length-restored :
    (n : ℕ) (store other : Bytes)
    → n ≤ length store
    → length other ≡ length store
    → length (overwrite 0 (take n store) other) ≡ length store
length-restored n store other h e = omega (
  arith,
  length-append {0} (take n store) (drop (0 + length (take n store)) other),
  length-drop {0} (0 + length (take n store)) other,
  length-take {0} n store,
  h,
  e,
)

restored_circle :
    (o : ℕ) (store other shown hidden : Bytes) (n : ℕ)
    → length other ≡ length store
    → n ≡ min (length store) (o + length shown)
    → rot o store ≡ shown ++ hidden
    → (rest : Bytes) × (rot o (overwrite 0 (take n store) other) ≡ shown ++ rest)
restored_circle o store other shown hidden n e k c =
    elim (dec_lt (length store) (o + length shown)) [
      | yes l ↦
          let m : n ≡ length store = omega (arith, k, l) in
          let t : take n store ≡ store = take_all n store (omega (arith, m)) in
          let d : drop (0 + length store) other ≡ [] =
            drop_all (0 + length store) other (omega (arith, e)) in
          let w : overwrite 0 (take n store) other ≡ store =
            ap (λ b. b ++ drop (0 + length b) other) t
            ∙ ap (λ b. store ++ b) d
            ∙ append-nil store in
          (hidden, ap (rot o) w ∙ c)
      | no l ↦
          let m : n ≡ o + length shown = omega (arith, k, l) in
          let tail = drop (0 + length (take n store)) other in
          subst (λ i. (rest : Bytes) × (rot o (take i store ++ tail) ≡ shown ++ rest)) (sym m)
            (rot_front o store shown hidden tail (omega (arith, l)) c)
    ]

restored-IsView :
    (range : Range) (store other shown : Bytes) (n : ℕ)
    → IsView store range shown
    → length other ≡ length store
    → n ≡ min (length store) (range.offset + length shown)
    → IsView (overwrite 0 (take n store) other) range shown
restored-IsView range store other shown n v e k =
    let same = length-restored n store other (omega (arith, k)) e in
    let (hidden, circle) = restored_circle range.offset store other shown v.hidden n e k v.circle in
    record {
      small = rw same v.small;
      inside = rw same v.inside;
      size = v.size;
      hidden = hidden;
      circle = circle;
    }

-- The first `GetRingBufferLength` bytes of a ring lie inside its memory.
pub read_memory-image :
    (ring : RingBufferData)
    → read_memory (get_ring_buffer_length ring) (image ring)
      ≡ some (take (get_ring_buffer_length ring) (image ring))
unfolding image get_ring_buffer_length word_bytes
read_memory-image ring = read_memory-le (get_ring_buffer_length ring) (image ring) (omega arith)

-- What is written to disk, the first `GetRingBufferLength` bytes, gives a ring of the same size
-- the same range, which shows the same bytes.
pub deserialize-image :
    (ring other : RingBufferData) (shown : Bytes)
    → IsView ring.bytes ring.data_range shown
    → length other.bytes ≡ length ring.bytes
    → (bytes : Bytes) × (deserialize_from_buffer
          (take (get_ring_buffer_length ring) (image ring))
          other
        ≡ (true, record { data_range = ring.data_range; bytes = bytes }))
      × IsView bytes ring.data_range shown
unfolding image get_ring_buffer_length word_bytes
deserialize-image ring other shown v same =
    let o = ring.data_range.offset in
    let n = ring.data_range.length in
    let size = length ring.bytes in
    let f = fits ring.bytes ring.data_range shown v in
    let sum : add32 o n ≡ o + n = add32-small o n (omega (arith, v.small, v.inside, v.size, f)) in
    let rest = take (min size (add32 o n)) ring.bytes in
    let l = length-take {0} (min size (add32 o n)) ring.bytes in
    let t : take (16 + min size (add32 o n)) (header_bytes ring.data_range ++ ring.bytes)
        ≡ header_bytes ring.data_range ++ rest =
      take_past (header_bytes ring.data_range) ring.bytes (min size (add32 o n)) in
    let e =
      deserialize-header ring.data_range rest other (omega (arith, v.small, v.inside))
        (omega (arith, v.small, v.size, f)) (omega (arith, l, same)) in
    (
      overwrite 0 rest other.bytes,
      ap (λ b. deserialize_from_buffer b other) t ∙ e,
      restored-IsView ring.data_range ring.bytes other.bytes shown (min size (add32 o n)) v same
          (ap (min size) (sum ∙ ap (λ x. o + x) v.size)),
    )
