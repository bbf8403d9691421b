-- ===== src/Bridge/Marker.antt =====
-- The crash marker: the path kept in the 512-byte global, and `FirstChanceHandler`, which creates
-- the file when the process crashes.
use crashkit.Prelude.{
  ◌+◌, ◌<◌, ◌≡◌, refl, Bool, true, false, not, ◌||◌, none, some, ◌∷◌, ◌++◌, arith, ◌==◌, ltb,
  if◌then◌else◌, length, drop, get_or, length-append, length-drop, Bool-cases, inl, inr, ltb→lt,
  lt→ltb,
}
use crashkit.Prelude.Bytes.{Bytes, NulFree, until_nul, until_nul-append, ◌=b◌}
use crashkit.Bridge.{JString, null_ref, text, Bridge, marker_size}

-- The marker path is copied with its NUL if it fits, and the first chance handler registered.
unfoldable pub set_marker_path : JString → Bridge → Bridge
set_marker_path null_ref s = s
set_marker_path (text none) s = s
set_marker_path (text (some chars)) s =
    if ltb (length chars) marker_size
    then record s {
      crash_marker_path = chars ++ 0 ∷ drop (length chars + 1) s.crash_marker_path;
      first_chance = true;
    }
    else s

-- The files that exist.
abbrev pub Files : Type 0
Files = Bytes → Bool

abbrev pub touch : Bytes → Files → Files
touch path files q = q =b path || files q

-- `open(g_crash_marker_path, O_WRONLY | O_CREAT | O_TRUNC, 0600)`, which may fail; `opens` says for
-- which paths it does not. The result tells crashpad whether the signal was handled.
unfoldable pub first_chance_handler : (Bytes → Bool) → Bridge → Files → Bool × Files
first_chance_handler opens s files =
    let path = until_nul s.crash_marker_path in
    (
      false,
      if not (get_or s.crash_marker_path 0 0 == 0)
          then (if opens path then touch path files else files)
          else files,
    )

-- The global has its size and holds a NUL, so reading it as a C string stays inside.
pub record IsMarkerPath (path : Bytes) : Type 0 where
  pub size : length path ≡ marker_size
  pub ends : length (until_nul path) < marker_size

-- The path that a marker string registers, if it fits.
abbrev pub kept : JString → Bytes → Bytes
kept null_ref old = old
kept (text none) old = old
kept (text (some chars)) old = if ltb (length chars) marker_size then chars else old

abbrev pub IsCString : JString → Type 0
IsCString null_ref = Unit
IsCString (text none) = Unit
IsCString (text (some chars)) = NulFree chars

copied_path :
    (chars old : Bytes)
    → NulFree chars
    → length chars < marker_size
    → IsMarkerPath old
    → (until_nul (chars ++ 0 ∷ drop (length chars + 1) old) ≡ chars)
      × IsMarkerPath (chars ++ 0 ∷ drop (length chars + 1) old)
copied_path chars old h l w =
    let e = until_nul-append chars (drop (length chars + 1) old) h in
    (e, record { size = omega (arith, length-append {0}, length-drop {0}, w.size); ends = rw e l })

-- Whatever the marker path, the global keeps its 512 bytes and a NUL among them; it then holds the
-- new path if that was a string of at most 511 bytes, and else what it held before.
pub set_marker_path_lem :
    (marker : JString) (s : Bridge)
    → IsCString marker
    → IsMarkerPath s.crash_marker_path
    → (until_nul (set_marker_path marker s).crash_marker_path
        ≡ kept marker (until_nul s.crash_marker_path))
      × IsMarkerPath (set_marker_path marker s).crash_marker_path
unfolding set_marker_path
set_marker_path_lem null_ref s h w = (refl, w)
set_marker_path_lem (text none) s h w = (refl, w)
set_marker_path_lem (text (some chars)) s h w = elim (Bool-cases (ltb (length chars) marker_size)) [
  | inr e ↦ rw e (refl, w)
  | inl e ↦ rw e (copied_path chars s.crash_marker_path h (ltb→lt _ _ e) w)
]

-- A string of at most 511 bytes is taken.
pub set_marker_path-registers :
    (chars : Bytes) (s : Bridge)
    → length chars < marker_size
    → ((set_marker_path (text (some chars)) s).first_chance ≡ true)
      × (kept (text (some chars)) (until_nul s.crash_marker_path) ≡ chars)
unfolding set_marker_path
set_marker_path-registers chars s l = let e = lt→ltb (length chars) marker_size l in (rw e, rw e)
