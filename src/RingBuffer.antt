-- ===== src/RingBuffer.antt =====
-- crashkit/src/main/cpp/crashpad/include/client/length_delimited_ring_buffer.h: the ring buffer of
-- length-delimited items. It is a template, so its code is compiled into whoever uses it. A buffer
-- is the list of its bytes, `memcpy` is by `take` and `drop`, and the 32-bit sums and differences
-- keep their wrap-around.
pub mod Circular
pub mod Splice
pub mod Copies
pub mod Varint
pub mod Queue
pub mod Image
mod Tests
use Prim.Native.Nat.{bit_and, bit_or}
use crashkit.Prelude.{
  ℕ, zero, suc, ◌+◌, ◌-◌, ◌*◌, ◌/◌, ◌%◌, ◌^◌, min, Bool, true, false, Option, none, some, [], ◌∷◌,
  ◌++◌, ◌==◌, ltb, leb, if◌then◌else◌, length, get_or, take, drop, replicate,
}
use crashkit.Prelude.Bytes.{Bytes}

abbrev pub add32 : ℕ → ℕ → ℕ
add32 a b = (a + b) % 2 ^ 32

abbrev pub sub32 : ℕ → ℕ → ℕ
sub32 a b = (a + 2 ^ 32 - b) % 2 ^ 32

-- `internal::Range`
pub record Range : Type 0 where
  pub offset : ℕ
  pub length : ℕ

-- `offset = (offset + n) % size`, `length -= n`
abbrev pub advance : ℕ → ℕ → Range → Range
advance size n range = record {
  offset = add32 range.offset n % size;
  length = sub32 range.length n;
}

-- The loop of `Base128VarintEncodedLength`. A 32-bit value is zero after five rounds.
pub encoded_length_from : ℕ → ℕ → ℕ → ℕ
encoded_length_from zero value size = size
encoded_length_from (suc rounds) value size =
    let more = encoded_length_from rounds (value / 2 ^ 7) (size + 1) in
    if leb 0x80 value then more else size

pub encoded_length : ℕ → ℕ
unfolding encoded_length_from
encoded_length value = encoded_length_from 5 value 1

-- `ReadBytesFromRingBuffer`: the bytes, and the range that is left to read.
pub read_bytes : Bytes → Range → ℕ → Option (Bytes × Range)
read_bytes store range n =
    let size = length store in
    let initial = min n (sub32 size range.offset) in
    if ltb range.length n
    then none
    else if n == 0
    then some ([], range)
    else some (
      take initial (drop range.offset store)
          ++ (if ltb initial n then take (sub32 n initial) store else []),
      advance size n range,
    )

-- `base::CheckLsh(value, shift).AssignIfValid`, on 32 bits.
abbrev pub check_lsh : ℕ → ℕ → Option ℕ
check_lsh value shift =
    let shifted = value * 2 ^ shift % 2 ^ 32 in
    if ltb shift 32 then (if shifted / 2 ^ shift == value then some shifted else none) else none

-- One round of the loop of `ReadBase128VarintFromRingBuffer`, after its byte was read: the new
-- result, and whether the loop goes on.
pub varint_round : ℕ → ℕ → ℕ → Option (ℕ × Bool)
varint_round byte result length = elim (check_lsh (bit_and byte 0x7f) (length * 7 % 2 ^ 32)) [
  | none ↦ none
  | some bits ↦ some (bit_or result bits, bit_and byte 0x80 == 0x80)
]

-- The loop itself: the value and its length in bytes, if it is well formed, and the range left.
-- The sixth byte shifts too far, so six rounds are enough.
pub read_varint_from : ℕ → Bytes → Range → ℕ → ℕ → Option (ℕ × ℕ) × Range
read_varint_from zero store range result length = (none, range)
read_varint_from (suc rounds) store range result length = elim (read_bytes store range 1) [
  | none ↦ (none, range)
  | some (bytes, range') ↦ elim (varint_round (get_or bytes 0 0) result length) [
    | none ↦ (none, range')
    | some (result', more) ↦ elim more [
      | true ↦ read_varint_from rounds store range' result' (length + 1)
      | false ↦ (some (result', length + 1), range')
    ]
  ]
]

pub read_varint : Bytes → Range → Option (ℕ × ℕ) × Range
unfolding read_varint_from
read_varint store range = read_varint_from 6 store range 0 0

-- `memcpy(&data[offset], bytes, length)`
abbrev pub overwrite : ℕ → Bytes → Bytes → Bytes
overwrite offset bytes store = take offset store ++ (bytes ++ drop (offset + length bytes) store)

-- `WriteBytesToRingBuffer`: whether it wrote, the bytes of the ring, and the range left to write.
pub write_bytes : Bytes → Bytes → Range → Bool × Bytes × Range
write_bytes source store range =
    let size = length store in
    let n = length source in
    let initial = min n (sub32 size range.offset) in
    let front = overwrite range.offset (take initial source) store in
    if ltb (sub32 size range.length) n then (false, store, range) else (
      true,
      if ltb initial n then overwrite 0 (drop initial source) front else front,
      advance size n range,
    )

-- `WriteBase128VarintToRingBuffer`, with the length so far.
pub write_varint_from : ℕ → ℕ → ℕ → Bytes → Range → Option ℕ × Bytes × Range
write_varint_from zero value length store range = (none, store, range)
write_varint_from (suc rounds) value length store range = elim (ltb 0x7f value) [
  | true ↦
      let (written, store', range') =
        write_bytes (bit_or (bit_and (value % 2 ^ 8) 0x7f) 0x80 ∷ []) store range in
      elim written [
        | true ↦ write_varint_from rounds (value / 2 ^ 7) (length + 1) store' range'
        | false ↦ (none, store', range')
      ]
  | false ↦
      let (written, store', range') = write_bytes (value % 2 ^ 8 ∷ []) store range in
      (if written then some length else none, store', range')
]

pub write_varint : ℕ → Bytes → Range → Option ℕ × Bytes × Range
unfolding write_varint_from
write_varint value store range = write_varint_from 6 value 1 store range

-- `RingBufferData`, whose magic and version are constants.
pub record RingBufferData : Type 0 where
  pub data_range : Range
  pub bytes : Bytes

-- `RingBufferData() = default`: an array of zeros, and nothing to read.
unfoldable pub new_data : ℕ → RingBufferData
new_data capacity = record {
  data_range = record { offset = 0; length = 0 };
  bytes = replicate capacity 0;
}

-- A reader has its own range, taken from the ring when it is made.
abbrev pub new_reader : RingBufferData → Range
new_reader ring = ring.data_range

-- The end of `PopWithRange`, once the length of the item is read. The bytes go behind those of the
-- target buffer; a read that fails leaves as many zeros there.
pub pop_item : Bytes → Bytes → ℕ → Range → Bool × Bytes × Range
pop_item bytes target buffer_length range = elim (read_bytes bytes range buffer_length) [
  | none ↦ (false, target ++ replicate buffer_length 0, range)
  | some (item, range') ↦ (true, target ++ item, range')
]

pub pop_sized : Bytes → Bytes → Option (ℕ × ℕ) → Range → Bool × Bytes × Range
unfolding pop_item
pop_sized bytes target none range = (false, target, range)
pop_sized bytes target (some (buffer_length, varint_length)) range =
    if buffer_length == 0 then (false, target, range) else pop_item bytes target buffer_length range

-- `Pop`: whether an item was read, the target buffer, and the reader's range.
pub pop : RingBufferData → Bytes → Range → Bool × Bytes × Range
unfolding read_varint pop_sized
pop ring target range =
    let (varint, range') = read_varint ring.bytes range in pop_sized ring.bytes target varint range'

-- The loop of `Push` that drops items until there is room. `none` is a loop that runs on, the inner
-- `none` its `return false`.
pub make_room : ℕ → Bytes → ℕ → ℕ → Range → Option (Option Range)
make_room zero store bytes_needed bytes_available range = none
make_room (suc rounds) store bytes_needed bytes_available range =
    elim (ltb bytes_available bytes_needed) [
      | false ↦ some (some range)
      | true ↦
          let (varint, range') = read_varint store range in
          elim varint [
            | none ↦ some none
            | some (bytes_to_skip, varint_length) ↦
                make_room rounds store bytes_needed
                  (add32 bytes_available (add32 varint_length bytes_to_skip))
                  (advance (length store) bytes_to_skip range')
          ]
    ]

-- The writer and the ring that it refers to.
pub record Writer : Type 0 where
  pub ring : RingBufferData
  pub write_offset : ℕ

abbrev pub new_writer : RingBufferData → Writer
new_writer ring = record { ring = ring; write_offset = 0 }

-- The end of `Push`: the length and the item are written, and the results of the two writes are not
-- looked at.
pub write_item : Bytes → ℕ → Range → Writer → Writer
unfolding write_varint
write_item buffer bytes_needed readable w =
    let (_, bytes, range) =
      write_varint (length buffer) w.ring.bytes
        (record { offset = w.write_offset; length = bytes_needed }) in
    let (_, bytes', range') = write_bytes buffer bytes range in
    record {
      ring = record {
        data_range = record {
          offset = readable.offset;
          length = add32 readable.length bytes_needed;
        };
        bytes = bytes';
      };
      write_offset = range'.offset;
    }

pub finish_push : Bytes → ℕ → Option (Option Range) → Writer → Option (Bool × Writer)
unfolding write_item
finish_push buffer bytes_needed none w = none
finish_push buffer bytes_needed (some none) w = some (false, w)
finish_push buffer bytes_needed (some (some readable)) w =
    some (true, write_item buffer bytes_needed readable w)

-- `Push`. Where the ring is well formed each round of the loop frees a byte at least.
pub push : Bytes → Writer → Option (Bool × Writer)
unfolding encoded_length finish_push make_room
push buffer w =
    let size = length w.ring.bytes in
    let range = w.ring.data_range in
    let bytes_needed = add32 (encoded_length (length buffer)) (length buffer) in
    if length buffer == 0
    then some (false, w)
    else if ltb size bytes_needed
    then some (false, w)
    else finish_push buffer bytes_needed
        (make_room (suc size) w.ring.bytes bytes_needed (sub32 size range.length) range) w

-- `GetRingBufferLength`, with the 16 bytes of the header.
pub get_ring_buffer_length : RingBufferData → ℕ
get_ring_buffer_length ring =
    16 + min (length ring.bytes) (add32 ring.data_range.offset ring.data_range.length)

-- The three `ResetForTesting`.
pub reset_data : RingBufferData → RingBufferData
reset_data ring = record ring { data_range = record { offset = 0; length = 0 } }

pub reset_writer : Writer → Writer
unfolding reset_data
reset_writer w = record { ring = reset_data w.ring; write_offset = 0 }

abbrev pub reset_reader : Range → Range
reset_reader range = record { offset = 0; length = 0 }
