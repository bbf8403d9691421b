-- ===== src/Annotation/Ring.antt =====
-- crashkit/src/main/cpp/crashpad/include/client/ring_buffer_annotation.h: an annotation whose value
-- is a ring buffer.
use crashkit.Prelude.{
  ℕ, suc, ◌*◌, ◌^◌, ◌≤◌, ◌<◌, ◌≡◌, refl, sym, ap, ◌∙◌, Bool, true, false, Option, none, some, inl,
  List, length, take, if◌then◌else◌, arith,
}
use crashkit.Prelude.Bytes.{Bytes, read_memory}
use crashkit.RingBuffer.{
  RingBufferData, Writer, new_data, new_writer, new_reader, push, get_ring_buffer_length,
  reset_writer,
}
use crashkit.RingBuffer.Copies.{fits}
use crashkit.RingBuffer.Image.{image, deserialize_from_buffer, deserialize-image, read_memory-image}
use crashkit.RingBuffer.Queue.{stored, enqueue, length-le}
use crashkit.RingBuffer.Queue.Writer.{IsRing, push-enqueue, accepts_light}
use crashkit.RingBuffer.Queue.Exchange.{pop_all, pop_all-eq}
use crashkit.Annotation.{
  Annotation, IsSetSize, ConcurrentAccessGuardMode, new_annotation, guard_annotation,
}
use crashkit.Annotation.SpinGuard.{try_create_once}

-- `RingBufferAnnotation`
pub record RingBufferAnnotation : Type 0 where
  pub annotation : Annotation
  pub ring_buffer_writer : Writer

abbrev pub new_ring_buffer_annotation : ℕ → Bytes → ℕ → RingBufferAnnotation
new_ring_buffer_annotation kind name capacity = record {
  annotation = new_annotation kind name ConcurrentAccessGuardMode.scoped_spin_guard;
  ring_buffer_writer = new_writer (new_data capacity);
}

-- `ResetForTesting`
abbrev pub reset_annotation : RingBufferAnnotation → RingBufferAnnotation
reset_annotation r = record r { ring_buffer_writer = reset_writer r.ring_buffer_writer }

module _ (set_size : ℕ → Annotation → Annotation) where
  -- The end of `Push`, with the lock held; the guard's destructor releases it.
  pub pushed : Annotation → Option (Bool × Writer) → Option (Bool × RingBufferAnnotation)
  pushed a none = none
  pushed a (some (success, w)) = some (
    success,
    record {
      annotation = record (if success then set_size (get_ring_buffer_length w.ring) a else a) {
        locked = false;
      };
      ring_buffer_writer = w;
    },
  )

  -- `Push` after the attempt to take the lock.
  pub push_guarded :
      Bytes → Option Bool → RingBufferAnnotation → Option (Bool × RingBufferAnnotation)
  unfolding pushed
  push_guarded buffer none r = none
  push_guarded buffer (some false) r = some (false, r)
  push_guarded buffer (some true) r =
      pushed (record r.annotation { locked = true }) (push buffer r.ring_buffer_writer)

  -- `RingBufferAnnotation::Push`, with the timeout of zero.
  pub push_annotation :
      (ℕ → Bool) → (ℕ → ℕ) → ℕ → Bytes → RingBufferAnnotation → Option (Bool × RingBufferAnnotation)
  unfolding push_guarded
  push_annotation free clock rounds buffer r =
      push_guarded buffer (guard_annotation free clock rounds 0 r.annotation.guard_mode) r

  module _ (sets : IsSetSize set_size) where
    push_annotation-pushed :
        (free : ℕ → Bool) (clock : ℕ → ℕ) (rounds : ℕ) (m : Bytes) (r : RingBufferAnnotation)
        (w : Writer)
        → r.annotation.guard_mode ≡ ConcurrentAccessGuardMode.scoped_spin_guard
        → clock 0 < 2 ^ 64
        → clock 0 ≤ clock 1
        → free 0 ≡ true
        → push m r.ring_buffer_writer ≡ some (true, w)
        → push_annotation free clock (suc rounds) m r
          ≡ pushed (record r.annotation { locked = true }) (some (true, w))
    unfolding push_annotation guard_annotation
    push_annotation-pushed free clock rounds m r w g h k f e =
        let once = try_create_once free clock rounds h k ∙ ap some f in
        ap (λ mode. push_guarded m (guard_annotation free clock (suc rounds) 0 mode) r) g
        ∙ ap (λ o. push_guarded m o r) once
        ∙ ap (pushed (record r.annotation { locked = true })) e

    -- After a message was pushed with the lock free, the lock is free again, the annotation's size
    -- does not go past the memory of its ring, and the bytes of that size that a crash report takes
    -- give a reader, through any ring of the same capacity, the messages of the queue with the new
    -- one. For a ring buffer annotation that is guarded, a clock that does not run backwards, and a
    -- message that is not empty and takes at most half of a ring of 3 to 2 ^ 31 bytes.
    pub push_annotation-enqueue :
        (free : ℕ → Bool) (clock : ℕ → ℕ) (rounds : ℕ) (m : Bytes) (r : RingBufferAnnotation)
        (q : List Bytes) (other : RingBufferData)
        → r.annotation.guard_mode ≡ ConcurrentAccessGuardMode.scoped_spin_guard
        → clock 0 < 2 ^ 64
        → clock 0 ≤ clock 1
        → free 0 ≡ true
        → IsRing r.ring_buffer_writer q
        → 3 ≤ length r.ring_buffer_writer.ring.bytes
        → 0 < length m
        → 2 * length m ≤ length r.ring_buffer_writer.ring.bytes
        → length other.bytes ≡ length r.ring_buffer_writer.ring.bytes
        → (r' : RingBufferAnnotation) × (ring : RingBufferData) × (push_annotation free clock
              (suc rounds)
              m
              r
            ≡ some (true, r'))
          × (r'.annotation.locked ≡ false)
          × IsRing r'.ring_buffer_writer (enqueue (length r.ring_buffer_writer.ring.bytes) m q)
          × (report : Bytes) × (read_memory r'.annotation.size (image r'.ring_buffer_writer.ring)
              ≡ some report)
          × (deserialize_from_buffer report other ≡ (true, ring))
          × (pop_all (suc (length r.ring_buffer_writer.ring.bytes)) ring (new_reader ring)
              ≡ some (enqueue (length r.ring_buffer_writer.ring.bytes) m q))
    unfolding pushed
    push_annotation-enqueue free clock rounds m r q other g h k f i c a l same =
        let size = length r.ring_buffer_writer.ring.bytes in
        let messages = enqueue size m q in
        let (w, e, (i', s)) =
          push-enqueue m r.ring_buffer_writer q i c (omega (arith, i.view.small, a, l)) (inl l) in
        let t = accepts_light m size a c i.view.small l in
        let done =
          push_annotation-pushed free clock rounds m r w g h k f (e ∙ ap (λ b. some (b, w)) t) in
        let (bytes, d, v) =
          deserialize-image w.ring other (stored messages) i'.view (same ∙ sym s) in
        let z =
          sets.sized (get_ring_buffer_length w.ring) (record r.annotation { locked = true }) in
        let room = fits w.ring.bytes w.ring.data_range (stored messages) i'.view in
        (
          record {
            annotation =
                record (set_size (get_ring_buffer_length w.ring)
                  (record r.annotation { locked = true })) { locked = false };
            ring_buffer_writer = w;
          },
          record { data_range = w.ring.data_range; bytes = bytes },
          done,
          refl,
          i',
          take (get_ring_buffer_length w.ring) (image w.ring),
          ap (λ n. read_memory n (image w.ring)) z ∙ read_memory-image w.ring,
          d,
          pop_all-eq (suc size) (record { data_range = w.ring.data_range; bytes = bytes })
              w.ring.data_range messages (omega (arith, length-le messages, room, s)) i'.messages v,
        )
