-- ===== src/Minidump/Total/Streams.antt =====
-- The streams but the one of crashpad: each is read without an exception, for every file.
use crashkit.Prelude.{
  ℕ, zero, suc, ◌+◌, ◌*◌, none, some, List, [], ◌∷◌, ◌++◌, ◌==◌, length, arith, min,
}
use crashkit.Prelude.Bytes.{Bytes}
use crashkit.Minidump.Dict.{set_item}
use crashkit.Minidump.Total.{
  Returns, some-Returns, ltb-Returns, leb-Returns, bind-Returns, unpack-Returns,
  read_string-Returns,
}
use crashkit.Minidump.Reader.{
  Codecs, Directory, Module, module_named, exception_code_str, arch_str, read_directory,
  read_exception, read_thread_count, read_arch, read_modules, read_module_list,
  read_minidump_string,
}

pub read_directory-Returns :
    (bytes : Bytes) (rva n i : ℕ) (streams : Directory)
    → Returns (read_directory bytes rva n i streams)
unfolding read_directory
read_directory-Returns bytes rva zero i streams = some-Returns streams
read_directory-Returns bytes rva (suc n) i streams =
    ltb-Returns (length bytes) (rva + i * 12 + 12) (some-Returns streams) (λ l.
      unpack-Returns 4 bytes (rva + i * 12) (omega (arith, l)) (λ stype.
        unpack-Returns 4 bytes (rva + i * 12 + 4) (omega (arith, l)) (λ dsize.
          unpack-Returns 4 bytes (rva + i * 12 + 8) (omega (arith, l)) (λ loc.
            read_directory-Returns bytes rva n (suc i)
              (set_item ◌==◌ stype (loc, dsize) streams)))))

pub read_exception-Returns : (bytes : Bytes) (rva : ℕ) → Returns (read_exception bytes rva)
unfolding read_exception
read_exception-Returns bytes rva =
    leb-Returns (rva + 28) (length bytes)
      (λ l. unpack-Returns 4 bytes rva (omega (arith, l)) (λ thread_id.
        unpack-Returns 4 bytes (rva + 4) (omega (arith, l)) (λ alignment.
          unpack-Returns 4 bytes (rva + 8) (omega (arith, l)) (λ exc_code.
            unpack-Returns 4 bytes (rva + 12) (omega (arith, l)) (λ exc_flags.
              unpack-Returns 8 bytes (rva + 16) (omega (arith, l)) (λ exc_addr. some-Returns (
                some record {
                  crash_thread_id = thread_id;
                  exception_code = exc_code;
                  exception_code_str = exception_code_str exc_code;
                  exception_address = exc_addr;
                })))))))
      (some-Returns none)

pub read_thread_count-Returns : (bytes : Bytes) (rva : ℕ) → Returns (read_thread_count bytes rva)
unfolding read_thread_count
read_thread_count-Returns bytes rva =
    leb-Returns (rva + 4) (length bytes)
      (λ l. unpack-Returns 4 bytes rva l (λ n. some-Returns (some n))) (some-Returns none)

pub read_arch-Returns : (bytes : Bytes) (rva : ℕ) → Returns (read_arch bytes rva)
unfolding read_arch
read_arch-Returns bytes rva =
    leb-Returns (rva + 2) (length bytes)
      (λ l. unpack-Returns 2 bytes rva l (λ n. some-Returns (some (arch_str n))))
      (some-Returns none)

module _ (c : Codecs) (bytes : Bytes) where
  pub read_modules-Returns :
      (rva n i : ℕ) (modules : List Module) → Returns (read_modules c bytes rva n i modules)
  unfolding read_modules
  read_modules-Returns rva zero i modules = some-Returns modules
  read_modules-Returns rva (suc n) i modules =
      ltb-Returns (length bytes) (rva + 4 + i * 108 + 108) (some-Returns modules) (λ l.
        unpack-Returns 8 bytes (rva + 4 + i * 108) (omega (arith, l)) (λ base_addr.
          unpack-Returns 4 bytes (rva + 4 + i * 108 + 8) (omega (arith, l)) (λ mod_size.
            unpack-Returns 4 bytes (rva + 4 + i * 108 + 20) (omega (arith, l)) (λ name_rva.
              bind-Returns (read_minidump_string c bytes name_rva)
                (read_string-Returns c.decode_utf16 bytes name_rva)
                (λ mod_name.
                  read_modules-Returns rva n (suc i)
                    (modules ++ module_named c mod_name base_addr mod_size ∷ []))))))

  pub read_module_list-Returns : (rva : ℕ) → Returns (read_module_list c bytes rva)
  unfolding read_module_list
  read_module_list-Returns rva =
      leb-Returns (rva + 4) (length bytes)
        (λ l. unpack-Returns 4 bytes rva l (λ n.
          bind-Returns (read_modules c bytes rva (min n 256) 0 [])
            (read_modules-Returns rva (min n 256) 0 []) (λ modules. some-Returns (some modules))))
        (some-Returns none)
