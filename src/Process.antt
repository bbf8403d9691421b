-- ===== src/Process.antt =====
-- crashkit/src/main/cpp/process.cpp: the command line of the process, the role that its name
-- gives, and the name that is read once. The file `/proc/self/cmdline` is an argument: `none` if
-- it does not open, else its content. The operations of `std::string_view` are by clauses; `npos`
-- is `none`.
pub mod Role
pub mod Cmdline
mod Tests
use crashkit.Prelude.{
  ℕ, zero, suc, ◌+◌, ◌-◌, Bool, true, false, ◌&&◌, ◌||◌, Option, none, some, List, [], ◌∷◌, ◌++◌,
  map, ◌==◌, leb, if◌then◌else◌, length, take, drop, replicate,
}
use crashkit.Prelude.Bytes.{Bytes, codes}

-- `buf.size()`
abbrev pub buf_size : ℕ
buf_size = 256

-- The loop `while (len < n && buf[len] != '\0') ++len`, on the rounds and the bytes left.
count_to_nul : ℕ → Bytes → ℕ
count_to_nul zero buf = 0
count_to_nul (suc n) [] = 0
count_to_nul (suc n) (b ∷ buf) = if b == 0 then 0 else suc (count_to_nul n buf)

-- The vector is zero where the file gave nothing; `f.gcount()` is the number of bytes read.
pub read_cmdline : Option Bytes → Bytes
unfolding count_to_nul
read_cmdline none = []
read_cmdline (some content) =
    let got = take buf_size content in
    let n = length got in
    let buf = got ++ replicate (buf_size - n) 0 in
    if n == 0 then [] else take (count_to_nul n buf) buf

-- `s.find(c)`
find : ℕ → Bytes → Option ℕ
find c [] = none
find c (b ∷ s) = elim (find c s) [
  | none ↦ if b == c then some 0 else none
  | some i ↦ if b == c then some 0 else some (suc i)
]

-- `s.substr(pos, n)`, and `s.substr(pos)`
abbrev substr : ℕ → ℕ → Bytes → Bytes
substr pos n s = take n (drop pos s)

-- " \t\r\n"
abbrev pub is_space : ℕ → Bool
is_space c = c == 32 || (c == 9 || (c == 13 || c == 10))

find_first_not_of : (ℕ → Bool) → Bytes → Option ℕ
find_first_not_of p [] = none
find_first_not_of p (b ∷ s) = elim (find_first_not_of p s) [
  | none ↦ if p b then none else some 0
  | some i ↦ if p b then some (suc i) else some 0
]

find_last_not_of : (ℕ → Bool) → Bytes → Option ℕ
find_last_not_of p [] = none
find_last_not_of p (b ∷ s) = elim (find_last_not_of p s) [
  | none ↦ if p b then none else some 0
  | some i ↦ some (suc i)
]

-- The characters that the role keeps.
abbrev pub is_friendly : ℕ → Bool
is_friendly c =
    (leb b'a' c && leb c b'z')
    || ((leb b'A' c && leb c b'Z')
        || ((leb b'0' c && leb c b'9') || (c == b'_' || (c == b'-' || c == b'.'))))

-- One round of the sanitising loop.
pub sanitize : ℕ → ℕ
sanitize c = if is_friendly c then c else b'_'

-- The loop, with the string that it fills.
clean_from : Bytes → Bytes → Bytes
clean_from clean [] = clean
clean_from clean (c ∷ s) = clean_from (clean ++ sanitize c ∷ []) s

abbrev pub main_role : Bytes
main_role = codes "main"

-- `return clean.empty() ? "main" : clean`
abbrev or_main : Bytes → Bytes
or_main [] = main_role
or_main (c ∷ s) = c ∷ s

-- After the trimmed suffix is cut out: `if (suffix.empty()) return "main"`, then the loop.
role_of_suffix : Bytes → Bytes
unfolding clean_from
role_of_suffix [] = main_role
role_of_suffix (c ∷ s) = or_main (clean_from [] (c ∷ s))

-- `l` and `r` are the first and the last byte that is no white space. There is an `r` where there is
-- an `l`, so the second case does not occur.
role_between : Option ℕ → Option ℕ → Bytes → Bytes
unfolding role_of_suffix
role_between none r suffix = main_role
role_between (some l) none suffix = main_role
role_between (some l) (some r) suffix = role_of_suffix (substr l (r - l + 1) suffix)

pub process_role_from_name : Bytes → Bytes
unfolding role_between find find_first_not_of find_last_not_of
process_role_from_name name = elim (find b':' name) [
  | none ↦ main_role
  | some colon ↦
      let suffix = drop (colon + 1) name in
      role_between (find_first_not_of is_space suffix) (find_last_not_of is_space suffix) suffix
]

-- `g_once` and `g_cached`
pub record NameCache : Type 0 where
  pub once : Bool
  pub cached : Bytes

abbrev pub no_name : NameCache
no_name = record { once = false; cached = [] }

-- `std::call_once` runs its function if it has not run.
unfoldable pub load_name : Option Bytes → NameCache → NameCache
unfolding read_cmdline
load_name cmdline g = if g.once then g else record g { once = true; cached = read_cmdline cmdline }

unfoldable pub get_process_name : Option Bytes → NameCache → Bytes × NameCache
unfolding load_name process_role_from_name
get_process_name cmdline g = let g' = load_name cmdline g in (process_role_from_name g'.cached, g')
