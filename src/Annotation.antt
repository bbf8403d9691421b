-- ===== src/Annotation.antt =====
-- crashkit/src/main/cpp/crashpad/include/client/annotation.h: annotations, and those that hold a
-- string. `SetSize` is declared there and defined elsewhere, so it is an argument; the value that a
-- pointer would lead to is kept by the annotations that own it.
pub mod SpinGuard
pub mod Strings
pub mod Ring
mod Tests
use crashkit.Prelude.{
  ℕ, ◌+◌, ◌-◌, ◌%◌, ◌^◌, ◌<◌, ◌≡◌, min, Bool, true, false, not, ltb, if◌then◌else◌, Option, none,
  some, ◌++◌, length, take, drop, replicate,
}
use crashkit.Prelude.Bytes.{Bytes, read_memory}
use crashkit.Annotation.SpinGuard.{try_create_scoped_spin_guard}

-- `Annotation::Type`, an enumeration over 16 bits
abbrev pub type_invalid : ℕ
type_invalid = 0

abbrev pub type_string : ℕ
type_string = 1

abbrev pub type_user_defined_start : ℕ
type_user_defined_start = 0x8000

-- `UserDefinedType`
abbrev pub user_defined_type : ℕ → ℕ
user_defined_type value = (type_user_defined_start + value) % 2 ^ 16

-- `ConcurrentAccessGuardMode`
pub data ConcurrentAccessGuardMode : Type 0 where
  unguarded : ConcurrentAccessGuardMode
  scoped_spin_guard : ConcurrentAccessGuardMode

-- `Annotation`, with `SpinGuardState::locked`
pub record Annotation : Type 0 where
  pub name : Bytes
  pub size : ℕ
  pub kind : ℕ
  pub guard_mode : ConcurrentAccessGuardMode
  pub locked : Bool

abbrev pub new_annotation : ℕ → Bytes → ConcurrentAccessGuardMode → Annotation
new_annotation kind name guard_mode = record {
  name = name;
  size = 0;
  kind = kind;
  guard_mode = guard_mode;
  locked = false;
}

-- The public constructor.
abbrev pub unguarded_annotation : ℕ → Bytes → Annotation
unguarded_annotation kind name = new_annotation kind name ConcurrentAccessGuardMode.unguarded

abbrev pub is_set : Annotation → Bool
is_set a = ltb 0 a.size

-- What the documentation of `SetSize` says of this state.
pub record IsSetSize (set_size : ℕ → Annotation → Annotation) : Type 0 where
  pub sized : (n : ℕ) (a : Annotation) → (set_size n a).size ≡ n
  pub keeps_lock : (n : ℕ) (a : Annotation) → (set_size n a).locked ≡ a.locked
  pub keeps_mode : (n : ℕ) (a : Annotation) → (set_size n a).guard_mode ≡ a.guard_mode

-- `TryCreateScopedSpinGuard` of the annotation
pub guard_annotation : (ℕ → Bool) → (ℕ → ℕ) → ℕ → ℕ → ConcurrentAccessGuardMode → Option Bool
guard_annotation free clock rounds timeout_ns ConcurrentAccessGuardMode.unguarded = some false
guard_annotation free clock rounds timeout_ns ConcurrentAccessGuardMode.scoped_spin_guard =
    try_create_scoped_spin_guard free clock rounds timeout_ns

-- `StringAnnotation`, whose buffer has `MaxSize` bytes
pub record StringAnnotation : Type 0 where
  pub annotation : Annotation
  pub buffer : Bytes

abbrev pub new_string_annotation : ℕ → Bytes → StringAnnotation
new_string_annotation max_size name = record {
  annotation = unguarded_annotation type_string name;
  buffer = replicate max_size 0;
}

-- `std::min(MaxSize, base::saturated_cast<ValueSizeType>(n))`
abbrev pub value_size : ℕ → ℕ → ℕ
value_size max_size n = min max_size (min n (2 ^ 32 - 1))

module _ (set_size : ℕ → Annotation → Annotation) (max_size : ℕ) where
  -- `Set(const char*)`: `strncpy` fills the rest of the buffer with NULs.
  abbrev pub set_c_string : Bytes → StringAnnotation → StringAnnotation
  set_c_string value s = record {
    annotation = set_size (value_size max_size (length value)) s.annotation;
    buffer = take max_size value ++ replicate (max_size - length value) 0;
  }

  -- `Set(std::string_view)`: `std::copy` leaves the rest of the buffer.
  abbrev pub set_string_view : Bytes → StringAnnotation → StringAnnotation
  set_string_view string s =
      let size = value_size max_size (length string) in
      record {
        annotation = set_size size s.annotation;
        buffer = take size string ++ drop size s.buffer;
      }

-- `value()`: `size()` bytes from the start of the buffer, undefined for a size beyond its end.
abbrev pub string_value : StringAnnotation → Option Bytes
string_value s = read_memory s.annotation.size s.buffer
