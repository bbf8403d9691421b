-- ===== src/Annotation/Strings.antt =====
-- What a `StringAnnotation` holds after it was set.
use crashkit.Prelude.{
  ℕ, subst, refl, ◌-◌, ◌^◌, ◌≤◌, ◌<◌, ◌≡◌, sym, ◌∙◌, some, ◌++◌, length, take, drop, take_all,
  length-take, length-append, length-drop, length-replicate, replicate, arith,
}
use crashkit.Prelude.Bytes.{Bytes, read_memory-append}
use native.Mathlib.Decide.{dec_lt}
use crashkit.Annotation.{
  Annotation, IsSetSize, StringAnnotation, set_c_string, set_string_view, string_value, value_size,
}

-- The annotation's value can be read and is this text, its size is no more than its buffer's, and
-- the buffer has the `MaxSize` bytes that it always had.
abbrev pub Holds : ℕ → Bytes → StringAnnotation → Type 0
Holds max_size text s =
    (string_value s ≡ some text) × (s.annotation.size ≤ max_size) × (length s.buffer ≡ max_size)

take_sized :
    (max_size : ℕ) (value : Bytes)
    → max_size < 2 ^ 32
    → take (value_size max_size (length value)) value ≡ take max_size value
take_sized max_size value h = elim (dec_lt (length value) max_size) [
  | yes l ↦
      let e : value_size max_size (length value) ≡ length value = omega (arith, h, l) in
      rw e (
        take_all (length value) value (omega arith)
        ∙ sym (take_all max_size value (omega (arith, l))))
  | no l ↦ let e : value_size max_size (length value) ≡ max_size = omega (arith, h, l) in rw e refl
]

module _ (set_size : ℕ → Annotation → Annotation) (sets : IsSetSize set_size) where
  -- A buffer that starts with the text, in an annotation of its size.
  sized-Holds :
      (n max_size : ℕ) (a : Annotation) (text rest : Bytes)
      → n ≡ length text
      → length (text ++ rest) ≡ max_size
      → Holds max_size text (record { annotation = set_size n a; buffer = text ++ rest })
  sized-Holds n max_size a text rest h k = (
    read_memory-append (set_size n a).size text rest (sets.sized n a ∙ h),
    omega (arith, sets.sized n a, h, k, length-append {0} text rest),
    k,
  )

  -- Both ways of setting a string make its first `MaxSize` bytes the value, whatever the buffer
  -- held: `value()` reads inside the buffer, and the buffer keeps its `MaxSize` bytes. For a
  -- `MaxSize` below 2 ^ 32.
  pub string_value-set :
      (max_size : ℕ) (value : Bytes) (s : StringAnnotation)
      → max_size < 2 ^ 32
      → length s.buffer ≡ max_size
      → Holds max_size (take max_size value) (set_c_string set_size max_size value s)
        × Holds max_size (take max_size value) (set_string_view set_size max_size value s)
  string_value-set max_size value s h b =
      let n = value_size max_size (length value) in
      let l = length-take {0} max_size value in
      let e = take_sized max_size value h in
      let l' : n ≡ length (take n value) = omega (arith, h, length-take {0} n value) in
      let zeros : Bytes = replicate (max_size - length value) 0 in
      let r : length zeros ≡ max_size - length value =
        length-replicate (max_size - length value) 0 in
      (
        sized-Holds n max_size s.annotation (take max_size value) zeros (omega (arith, h, l))
            (omega (arith, l, length-append {0} (take max_size value) zeros, r)),
        subst (λ (text : Bytes). Holds max_size text (set_string_view set_size max_size value s)) e
            (sized-Holds n max_size s.annotation (take n value) (drop n s.buffer) l' (
              omega (
                arith,
                h,
                b,
                l',
                length-append {0} (take n value) (drop n s.buffer),
                length-drop {0} n s.buffer,
              ))),
      )
