-- ===== src/Process/Cmdline.antt =====
-- Reading `/proc/self/cmdline`: the bytes before the first NUL among the first 256, read once.
use crashkit.Prelude.{
  ◌≤◌, ◌≡◌, refl, ap, ◌∙◌, Option, none, some, [], ◌∷◌, ◌++◌, arith, length, take, length-take,
}
use crashkit.Prelude.Bytes.{Bytes, NulFree, until_nul, until_nul-NulFree, length-until_nul-le}
use crashkit.Process.{buf_size, count_to_nul, read_cmdline, no_name, get_process_name}
use crashkit.Process.Role.{role_spec, process_role_from_name-eq-role_spec}

take-count_to_nul :
    (got pad : Bytes) → take (count_to_nul (length got) (got ++ pad)) (got ++ pad) ≡ until_nul got
unfolding count_to_nul until_nul
take-count_to_nul [] pad = refl
take-count_to_nul (b ∷ got) pad = ground (arith, take-count_to_nul got pad)

-- What `read_cmdline` returns, on every branch.
abbrev pub cmdline_name : Option Bytes → Bytes
cmdline_name none = []
cmdline_name (some content) = until_nul (take buf_size content)

read_cmdline-some :
    (content : Bytes) → read_cmdline (some content) ≡ until_nul (take buf_size content)
unfolding read_cmdline
read_cmdline-some [] = unfold until_nul in refl
read_cmdline-some (b ∷ content) =
    rw (take-count_to_nul (take buf_size (b ∷ content)) _) (ground arith)

-- The command line read is empty if the file does not open, and else the bytes before the first
-- NUL among the first 256 of the file; it holds no NUL and has at most 256 bytes.
pub read_cmdline_lem :
    (cmdline : Option Bytes)
    → (read_cmdline cmdline ≡ cmdline_name cmdline)
      × NulFree (read_cmdline cmdline)
      × (length (read_cmdline cmdline) ≤ buf_size)
unfolding read_cmdline
read_cmdline_lem none = (refl, tt, omega arith)
read_cmdline_lem (some content) =
    let e = read_cmdline-some content in
    (
      e,
      rw e (until_nul-NulFree (take buf_size content)),
      rw e (
          omega (arith, length-until_nul-le (take buf_size content), length-take buf_size content)),
    )

-- The first call names the role of the command line as it is then, and every later call returns
-- the same role and leaves the cache as it is, whatever the file has become.
pub get_process_name_once :
    (first later : Option Bytes)
    → let (role, g) = get_process_name first no_name in
      (role ≡ role_spec (cmdline_name first)) × (get_process_name later g ≡ (role, g))
unfolding get_process_name
get_process_name_once first later =
    (process_role_from_name-eq-role_spec _ ∙ ap role_spec (read_cmdline_lem first).0, refl)
