-- ===== src/Minidump/Reader.antt =====
-- server/crashpad_server.py: `parse_minidump` and the functions that it calls. `none` stands for
-- `struct.error`, which `unpack_from` raises outside the file. Python's decoders and
-- `os.path.basename` are arguments.
pub mod Annotations
pub mod Parse
use Prim.Native.String.{String}
use crashkit.Prelude.{
  ℕ, zero, suc, ◌+◌, ◌*◌, ◌/◌, ◌%◌, min, Bool, true, false, not, ◌||◌, Option, none, some, List, [],
  ◌∷◌, ◌++◌, ◌==◌, ltb, leb, if◌then◌else◌, length, take, drop, ◌>>=◌,
}
use crashkit.Prelude.Bytes.{Bytes, codes, ◌=b◌}
use crashkit.Minidump.Layout.{unpack}
use crashkit.Minidump.Dict.{set_item, get_item}

-- A `str`, by its code points.
abbrev pub Text : Type 0
Text = List ℕ

-- `bytes.decode` with "replace" for the two encodings, and `os.path.basename`.
pub record Codecs : Type 0 where
  pub decode_utf8 : Bytes → Text
  pub decode_utf16 : Bytes → Text
  pub basename : Text → Text

abbrev pub is_empty : Text → Bool
is_empty [] = true
is_empty (c ∷ s) = false

unfoldable pub read_string : (Bytes → Text) → Bytes → ℕ → Option Text
read_string decode bytes rva =
    if rva == 0 || ltb (length bytes) (rva + 4)
    then some []
    else (unpack 4 bytes rva >>= λ (n : ℕ).
        if ltb (length bytes) (rva + 4 + n)
        then some []
        else some (decode (take n (drop (rva + 4) bytes))))

-- `_read_minidump_string`
abbrev pub read_minidump_string : Codecs → Bytes → ℕ → Option Text
read_minidump_string c = read_string c.decode_utf16

-- `_read_utf8_string`
abbrev pub read_utf8_string : Codecs → Bytes → ℕ → Option Text
read_utf8_string c = read_string c.decode_utf8

-- `streams`: the rva and the size by the type.
abbrev pub Directory : Type 0
Directory = List (ℕ × (ℕ × ℕ))

-- The loop over the stream directory, at its `i`-th round, with `n` rounds left.
unfoldable pub read_directory : Bytes → ℕ → ℕ → ℕ → Directory → Option Directory
read_directory bytes rva zero i streams = some streams
read_directory bytes rva (suc n) i streams =
    if ltb (length bytes) (rva + i * 12 + 12) then some streams else do
      stype ← unpack 4 bytes (rva + i * 12)
      dsize ← unpack 4 bytes (rva + i * 12 + 4)
      loc ← unpack 4 bytes (rva + i * 12 + 8)
      read_directory bytes rva n (suc i) (set_item ◌==◌ stype (loc, dsize) streams)

-- `_EXCEPTION_CODES`
abbrev exception_codes : List (ℕ × String)
exception_codes =
    (0xC0000005, "EXCEPTION_ACCESS_VIOLATION (SIGSEGV)")
    ∷ (0xC000001D, "EXCEPTION_ILLEGAL_INSTRUCTION (SIGILL)")
    ∷ (0x80000003, "EXCEPTION_BREAKPOINT (SIGTRAP)")
    ∷ (0xC0000025, "EXCEPTION_NONCONTINUABLE_EXCEPTION")
    ∷ (0xC0000094, "EXCEPTION_INT_DIVIDE_BY_ZERO (SIGFPE)")
    ∷ (0xC0000096, "EXCEPTION_PRIVILEGED_INSTRUCTION (SIGBUS)")
    ∷ (0x80000004, "EXCEPTION_SINGLE_STEP")
    ∷ (0xC000008C, "EXCEPTION_ARRAY_BOUNDS_EXCEEDED")
    ∷ (0xC00000FD, "EXCEPTION_STACK_OVERFLOW")
    ∷ (0x00000006, "SIGABRT")
    ∷ (0x00000007, "SIGBUS")
    ∷ (0x00000008, "SIGFPE")
    ∷ (0x00000004, "SIGILL")
    ∷ (0x0000000B, "SIGSEGV")
    ∷ (0x0000000D, "SIGPIPE")
    ∷ []

-- `_PROCESSOR_ARCH`
abbrev processor_archs : List (ℕ × String)
processor_archs =
    (0, "x86")
    ∷ (6, "IA64")
    ∷ (9, "x86_64")
    ∷ (12, "arm")
    ∷ (0xFFFF, "unknown")
    ∷ (0x8003, "arm64")
    ∷ []

-- `table.get(key, default)`
name_of : ℕ → List (ℕ × String) → Text → Text
name_of n [] other = other
name_of n ((k, name) ∷ table) other =
    let rest = name_of n table other in if n == k then codes name else rest

abbrev hex_digit : ℕ → ℕ
hex_digit d = if ltb d 10 then 48 + d else 55 + d

-- The last digits of a number in front of a text, to the base 16; to the base 10 without leading
-- zeros.
hex_digits : ℕ → ℕ → Text → Text
hex_digits zero n s = s
hex_digits (suc k) n s = hex_digits k (n / 16) (hex_digit (n % 16) ∷ s)

decimal : ℕ → ℕ → Text → Text
decimal zero n s = s
decimal (suc k) n s =
    let rest = decimal k (n / 10) ((48 + n % 10) ∷ s) in
    if ltb n 10 then (48 + n % 10) ∷ s else rest

unfoldable pub exception_code_str : ℕ → Text
unfolding name_of hex_digits
exception_code_str code = name_of code exception_codes (codes "0x" ++ hex_digits 8 code [])

unfoldable pub arch_str : ℕ → Text
unfolding name_of decimal
arch_str arch = name_of arch processor_archs (codes "arch_" ++ decimal 5 arch [])

-- What is said of the thread that crashed.
pub record Crash : Type 0 where
  pub crash_thread_id : ℕ
  pub exception_code : ℕ
  pub exception_code_str : Text
  pub exception_address : ℕ

-- An entry of "modules".
pub record Module : Type 0 where
  pub name : Text
  pub base : ℕ
  pub size : ℕ

-- `if stype in streams: rva, size = streams[stype]`, with what is left where it is not.
module _ {A : Type 0} where
  abbrev pub found : A → (ℕ → Option A) → Option (ℕ × ℕ) → Option A
  found absent read none = some absent
  found absent read (some (rva, size)) = read rva

  unfoldable pub with_stream : ℕ → Directory → A → (ℕ → Option A) → Option A
  with_stream stype streams absent read = found absent read (get_item ◌==◌ stype streams)

-- ExceptionStream
unfoldable pub read_exception : Bytes → ℕ → Option (Option Crash)
read_exception bytes rva =
    if leb (rva + 28) (length bytes)
    then (do
      thread_id ← unpack 4 bytes rva
      alignment ← unpack 4 bytes (rva + 4)
      exc_code ← unpack 4 bytes (rva + 8)
      exc_flags ← unpack 4 bytes (rva + 12)
      exc_addr ← unpack 8 bytes (rva + 16)
      some (
          some record {
            crash_thread_id = thread_id;
            exception_code = exc_code;
            exception_code_str = exception_code_str exc_code;
            exception_address = exc_addr;
          }))
    else some none

-- ThreadListStream
unfoldable pub read_thread_count : Bytes → ℕ → Option (Option ℕ)
read_thread_count bytes rva =
    if leb (rva + 4) (length bytes)
    then (unpack 4 bytes rva >>= λ (n : ℕ). some (some n))
    else some none

-- SystemInfoStream
unfoldable pub read_arch : Bytes → ℕ → Option (Option Text)
read_arch bytes rva =
    if leb (rva + 2) (length bytes)
    then (unpack 2 bytes rva >>= λ (arch : ℕ). some (some (arch_str arch)))
    else some none

-- An entry of "modules".
unfoldable pub module_named : Codecs → Text → ℕ → ℕ → Module
module_named c mod_name base size = record {
  name = if is_empty mod_name then codes "?" else c.basename mod_name;
  base = base;
  size = size;
}

-- The loop over the modules, with the modules so far.
unfoldable pub read_modules : Codecs → Bytes → ℕ → ℕ → ℕ → List Module → Option (List Module)
read_modules c bytes rva zero i modules = some modules
read_modules c bytes rva (suc n) i modules =
    if ltb (length bytes) (rva + 4 + i * 108 + 108) then some modules else do
      base_addr ← unpack 8 bytes (rva + 4 + i * 108)
      mod_size ← unpack 4 bytes (rva + 4 + i * 108 + 8)
      name_rva ← unpack 4 bytes (rva + 4 + i * 108 + 20)
      mod_name ← read_minidump_string c bytes name_rva
      read_modules c bytes rva n (suc i)
          (modules ++ module_named c mod_name base_addr mod_size ∷ [])

-- ModuleListStream
unfoldable pub read_module_list : Codecs → Bytes → ℕ → Option (Option (List Module))
read_module_list c bytes rva =
    if leb (rva + 4) (length bytes)
    then (do
      num_mods ← unpack 4 bytes rva
      modules ← read_modules c bytes rva (min num_mods 256) 0 []
      some (some modules))
    else some none
