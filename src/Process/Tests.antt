-- ===== src/Process/Tests.antt =====
-- Tests and instances for the process name.
use crashkit.Prelude.{◌≡◌, ◌↔◌, refl, Option, some, ◌∷◌, ◌++◌}
use crashkit.Prelude.Bytes.{Bytes, codes}
use crashkit.Process.{sanitize, read_cmdline, process_role_from_name}
use crashkit.Process.Role.{role_spec, process_role_from_name-eq-role_spec}
use crashkit.Process.Role.Friendly.{IsRole, process_role_from_name_iff}

abbrev remote : Bytes
remote = codes "com.duckduckgo.app: web view\n"

role_of_remote : process_role_from_name remote ≡ codes "web_view"
unfolding process_role_from_name sanitize
role_of_remote = refl

role_of_spaces : process_role_from_name (codes "app: \t") ≡ codes "main"
unfolding process_role_from_name
role_of_spaces = refl

role_without_colon : process_role_from_name (codes "com.duckduckgo.app") ≡ codes "main"
unfolding process_role_from_name
role_without_colon = refl

cmdline_stops_at_nul : read_cmdline (some (codes "app:x" ++ 0 ∷ codes "junk")) ≡ codes "app:x"
unfolding read_cmdline
cmdline_stops_at_nul = refl

role_spec_example : process_role_from_name remote ≡ role_spec remote
role_spec_example = process_role_from_name-eq-role_spec remote

process_role_from_name_iff_example :
    IsRole (codes "Remote_1") ↔ ((name : Bytes) × (process_role_from_name name ≡ codes "Remote_1"))
process_role_from_name_iff_example = process_role_from_name_iff (codes "Remote_1")

abbrev cmdline : Option Bytes
cmdline = some (codes "app:gpu" ++ 0 ∷ codes "junk")
