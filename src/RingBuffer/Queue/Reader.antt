-- ===== src/RingBuffer/Queue/Reader.antt =====
-- `RingBufferReader`: its `Pop` takes the first message of the queue.
use crashkit.Prelude.{
  ℕ, ◌<◌, ◌≡◌, refl, ap, ◌∙◌, true, false, Option, some, List, ◌∷◌, ◌++◌, length, arith, ◌==◌,
}
use crashkit.Prelude.Bytes.{Bytes}
use crashkit.RingBuffer.{Range, RingBufferData, advance, read_bytes, pop, pop_sized, pop_item}
use crashkit.RingBuffer.Copies.{
  IsView, IsMovedOn, IsMovedOn-trans, advance-IsMovedOn, read_bytes-IsView, fits,
}
use crashkit.RingBuffer.Varint.Read.{read_varint-encoding, read_varint_short}
use crashkit.RingBuffer.Queue.{stored, length-stored}

-- An empty queue gives nothing.
pub pop_empty :
    (ring : RingBufferData) (target : Bytes) (range : Range)
    → range.length ≡ 0
    → pop ring target range ≡ (false, target, range)
unfolding pop pop_sized
pop_empty ring target range h =
    ap (λ (x : Option (ℕ × ℕ) × Range). pop_sized ring.bytes target x.0 x.1)
      (read_varint_short ring.bytes range h)

pop_item_read :
    (bytes target item : Bytes) (n : ℕ) (range range' : Range)
    → read_bytes bytes range n ≡ some (item, range')
    → pop_item bytes target n range ≡ (true, target ++ item, range')
unfolding pop_item
pop_item_read bytes target item n range range' e = rw (pop_item, e) refl

-- The first message is put behind what the target buffer holds, and the reader moves past it.
pub pop_first :
    (ring : RingBufferData) (target : Bytes) (range : Range) (m : Bytes) (q : List Bytes)
    → 0 < length m
    → IsView ring.bytes range (stored (m ∷ q))
    → (range' : Range) × (pop ring target range ≡ (true, target ++ m, range'))
      × IsMovedOn ring.bytes range (stored q) range'
unfolding stored pop pop_sized
pop_first ring target range m q h v =
    let l = length-stored m q in
    let (range', e, moved) =
      read_varint-encoding ring.bytes range (m ++ stored q) (length m)
        (omega (arith, v.small, fits ring.bytes range (stored (m ∷ q)) v, l)) v in
    let range'' = advance (length ring.bytes) (length m) range' in
    let r = read_bytes-IsView ring.bytes range' m (stored q) h moved.view in
    let some_bytes : (length m == 0) ≡ false = ground arith in
    (
      range'',
      ap (λ (x : Option (ℕ × ℕ) × Range). pop_sized ring.bytes target x.0 x.1) e
          ∙ rw some_bytes (pop_item_read ring.bytes target m (length m) range' range'' r),
      IsMovedOn-trans ring.bytes range (m ++ stored q) range' (stored q) range'' moved
          (advance-IsMovedOn ring.bytes range' m (stored q) moved.view),
    )
