-- ===== src/RingBuffer/Tests.antt =====
-- Tests and instances for the ring buffer.
use crashkit.Prelude.{
  ◌≡◌, refl, Bool, true, Option, none, some, List, [], ◌∷◌, ◌++◌, length, arith, inl,
}
use crashkit.Prelude.Bytes.{Bytes}
use crashkit.RingBuffer.{
  Range, RingBufferData, Writer, new_data, new_writer, new_reader, push, pop, encoded_length,
  read_varint, read_bytes, write_bytes, varint_round, make_room, get_ring_buffer_length,
}
use crashkit.RingBuffer.Copies.{IsView, IsMovedOn}
use crashkit.RingBuffer.Varint.{encoding, groups}
use crashkit.RingBuffer.Varint.Read.{read_varint-encoding}
use crashkit.RingBuffer.Queue.{stored, accepts, enqueue, fit}
use crashkit.RingBuffer.Queue.Room.{make_room-fit}
use crashkit.RingBuffer.Queue.Writer.{IsRing, IsRingOf, push-enqueue}
use crashkit.RingBuffer.Queue.Exchange.{
  exchange, enqueue_all, IsSized, IsLight, exchange-enqueue_all, exchange_light, new-IsRing,
}
use crashkit.RingBuffer.Queue.Oversized.{push_oversized}

abbrev fresh : Writer
fresh = new_writer (new_data 8)

abbrev pushed : Option (Bool × Writer) → Writer
pushed none = fresh
pushed (some (_, w)) = w

abbrev push_on : Bytes → Writer → Writer
push_on m w = pushed (push m w)

-- The third message takes the place of the first, and stands round the end of the ring.
abbrev filled : Writer
filled = push_on (5 ∷ 6 ∷ 7 ∷ []) (push_on (3 ∷ 4 ∷ []) (push_on (1 ∷ 2 ∷ []) fresh))

encoded_length_300 : encoded_length 300 ≡ 2
unfolding encoded_length
encoded_length_300 = refl

filled_bytes : filled.ring.bytes ≡ 6 ∷ 7 ∷ 2 ∷ 2 ∷ 3 ∷ 4 ∷ 3 ∷ 5 ∷ []
unfolding push pop new_data get_ring_buffer_length read_varint read_bytes write_bytes varint_round
filled_bytes = refl

pop_filled : (pop filled.ring [] (new_reader filled.ring)).1 ≡ 3 ∷ 4 ∷ []
unfolding push pop new_data get_ring_buffer_length read_varint read_bytes write_bytes varint_round
pop_filled = refl

length_filled : get_ring_buffer_length filled.ring ≡ 24
unfolding push pop new_data get_ring_buffer_length read_varint read_bytes write_bytes varint_round
length_filled = refl

-- Five bytes fit into the ring of eight, and are not written.
oversized : (push_on (1 ∷ 2 ∷ 3 ∷ 4 ∷ 5 ∷ []) fresh).ring.bytes ≡ 5 ∷ 0 ∷ 0 ∷ 0 ∷ 0 ∷ 0 ∷ 0 ∷ 0 ∷ []
unfolding push pop new_data get_ring_buffer_length read_varint read_bytes write_bytes varint_round
oversized = refl

abbrev messages : List Bytes
messages = (1 ∷ 2 ∷ []) ∷ (3 ∷ 4 ∷ []) ∷ (5 ∷ 6 ∷ 7 ∷ []) ∷ []

abbrev oversized_message : Bytes
oversized_message = 1 ∷ 2 ∷ 3 ∷ 4 ∷ 5 ∷ []

abbrev other_message : Bytes
other_message = 9 ∷ 9 ∷ 9 ∷ 9 ∷ 9 ∷ []

fresh-IsRing : IsRing fresh []
fresh-IsRing = (new-IsRing 8 (omega arith) (omega arith)).0

push-enqueue_example :
    (w' : Writer) × (push (1 ∷ 2 ∷ []) fresh ≡ some (accepts 8 (1 ∷ 2 ∷ []), w'))
    × IsRingOf 8 (enqueue 8 (1 ∷ 2 ∷ []) []) w'
unfolding new_data
push-enqueue_example =
    push-enqueue (1 ∷ 2 ∷ []) fresh [] fresh-IsRing (omega arith) (omega arith) (inl (omega arith))

messages-IsSized : IsSized 8 messages
unfolding IsSized
messages-IsSized = (
  omega arith,
  inl (omega arith),
  (omega arith, inl (omega arith), (omega arith, inl (omega arith), omega arith)),
)

exchange-enqueue_all_example : exchange 8 messages ≡ some (enqueue_all 8 messages [])
exchange-enqueue_all_example =
    exchange-enqueue_all 8 messages (omega arith) (omega arith) messages-IsSized

messages-IsLight : IsLight 16 messages
unfolding IsLight
messages-IsLight =
    (omega arith, omega arith, (omega arith, omega arith, (omega arith, omega arith, omega arith)))

exchange_light_example : exchange 16 messages ≡ some messages
unfolding stored groups
exchange_light_example =
    exchange_light 16 messages (omega arith) (omega arith) messages-IsLight (omega arith)

push_oversized_example :
    (w' : Writer) × (push oversized_message fresh ≡ some (true, w'))
    × (push other_message fresh ≡ some (true, w'))
unfolding new_data groups
push_oversized_example =
    push_oversized oversized_message other_message fresh [] fresh-IsRing refl (omega arith)
      (omega arith)

-- A ring of eight bytes that holds one message.
abbrev one : RingBufferData
one = record {
  data_range = record { offset = 6; length = 3 };
  bytes = 8 ∷ 0 ∷ 0 ∷ 0 ∷ 0 ∷ 0 ∷ 2 ∷ 7 ∷ [];
}

one-IsView : IsView one.bytes one.data_range (stored ((7 ∷ 8 ∷ []) ∷ []))
unfolding stored groups
one-IsView = record {
  small = omega arith;
  inside = omega arith;
  size = refl;
  hidden = 0 ∷ 0 ∷ 0 ∷ 0 ∷ 0 ∷ [];
  circle = refl;
}

make_room-fit_example :
    (range' : Range) × (make_room 2 one.bytes 6 5 one.data_range ≡ some (some range'))
    × IsMovedOn one.bytes one.data_range (stored (fit 8 6 ((7 ∷ 8 ∷ []) ∷ []))) range'
unfolding stored groups
make_room-fit_example =
    make_room-fit 2 one.bytes 6 5 one.data_range ((7 ∷ 8 ∷ []) ∷ []) (omega arith) (omega arith)
      refl one-IsView

abbrev varint_bytes : Bytes
varint_bytes = 2 ∷ 0 ∷ 0 ∷ 0xac ∷ []

varint_bytes-IsView : IsView varint_bytes (record { offset = 3; length = 2 }) (encoding 300 ++ [])
unfolding groups
varint_bytes-IsView = record {
  small = omega arith;
  inside = omega arith;
  size = refl;
  hidden = 0 ∷ 0 ∷ [];
  circle = refl;
}

read_varint-encoding_example :
    (range' : Range) × (read_varint varint_bytes (record { offset = 3; length = 2 })
      ≡ (some (300, length (encoding 300)), range'))
    × IsMovedOn varint_bytes (record { offset = 3; length = 2 }) [] range'
read_varint-encoding_example =
    read_varint-encoding varint_bytes (record { offset = 3; length = 2 }) [] 300 (omega arith)
      varint_bytes-IsView
