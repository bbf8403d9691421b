-- ===== src/Annotation/Tests.antt =====
-- Tests and instances for the annotations, with a `SetSize` that stores the size and a clock that
-- moves on by ten nanoseconds between two readings.
use crashkit.Prelude.{
  ℕ, suc, ◌+◌, ◌*◌, ◌/◌, ◌≡◌, refl, Bool, true, false, ltb, some, [], ◌∷◌, arith,
}
use crashkit.Prelude.Bytes.{Bytes, codes, read_memory}
use crashkit.RingBuffer.{RingBufferData, new_data, new_reader}
use crashkit.RingBuffer.Image.{image, deserialize_from_buffer}
use crashkit.RingBuffer.Queue.{enqueue}
use crashkit.RingBuffer.Queue.Writer.{IsRing}
use crashkit.RingBuffer.Queue.Exchange.{pop_all, new-IsRing}
use crashkit.Annotation.{
  Annotation, IsSetSize, StringAnnotation, new_string_annotation, set_c_string, set_string_view,
  user_defined_type, type_string,
}
use crashkit.Annotation.SpinGuard.{Attempts, try_create_scoped_spin_guard, try_create-Attempts}
use crashkit.Annotation.Strings.{Holds, string_value-set}
use crashkit.Annotation.Ring.{
  RingBufferAnnotation, new_ring_buffer_annotation, push_annotation, push_annotation-enqueue,
}

abbrev set_size : ℕ → Annotation → Annotation
set_size n a = record a { size = n }

set_size-IsSetSize : IsSetSize set_size
set_size-IsSetSize = record {
  sized = λ n a. refl;
  keeps_lock = λ n a. refl;
  keeps_mode = λ n a. refl;
}

-- A value of 0x8001 wraps round to the type of strings.
user_defined_type_wraps : user_defined_type 0x8001 ≡ type_string
user_defined_type_wraps = refl

abbrev label : StringAnnotation
label = new_string_annotation 4 (codes "label")

string_value_example :
    Holds 4 (codes "long") (set_c_string set_size 4 (codes "longer") label)
    × Holds 4 (codes "long") (set_string_view set_size 4 (codes "longer") label)
string_value_example =
    string_value-set set_size set_size-IsSetSize 4 (codes "longer") label (omega arith) refl

abbrev clock : ℕ → ℕ
clock i = 10 * i

-- The lock is taken until the third attempt.
abbrev free : ℕ → Bool
free i = ltb 1 i

taken_then_free : try_create_scoped_spin_guard free clock 4 25 ≡ some true
unfolding try_create_scoped_spin_guard
taken_then_free = refl

try_create_example :
    Attempts free clock 0
      (clock 0 + 25)
      (try_create_scoped_spin_guard free clock (suc (25 / 10 + 1)) 25)
try_create_example =
    try_create-Attempts free clock 25 (omega arith) (omega arith) (λ j. omega arith)

abbrev history : RingBufferAnnotation
history = new_ring_buffer_annotation 0x8001 (codes "history") 8

abbrev always : ℕ → Bool
always i = true

push_annotation_example :
    (r' : RingBufferAnnotation) × (ring : RingBufferData) × (push_annotation set_size always clock 1
        (1 ∷ 2 ∷ [])
        history
      ≡ some (true, r'))
    × (r'.annotation.locked ≡ false)
    × IsRing r'.ring_buffer_writer (enqueue 8 (1 ∷ 2 ∷ []) [])
    × (report : Bytes) × (read_memory r'.annotation.size (image r'.ring_buffer_writer.ring)
        ≡ some report)
    × (deserialize_from_buffer report (new_data 8) ≡ (true, ring))
    × (pop_all 9 ring (new_reader ring) ≡ some (enqueue 8 (1 ∷ 2 ∷ []) []))
unfolding new_data
push_annotation_example =
    push_annotation-enqueue set_size set_size-IsSetSize always clock 0 (1 ∷ 2 ∷ []) history []
      (new_data 8) refl (omega arith) (omega arith) refl
      (new-IsRing 8 (omega arith) (omega arith)).0 (omega arith) (omega arith) (omega arith) refl
