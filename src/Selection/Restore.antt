-- ===== src/Selection/Restore.antt =====
-- src/ndmpd_tar_v3.c, `mkrsp`: where an object of the archive is restored to, if it is selected.
use ndmpd.Common.{
  ℕ, ◌≡◌, Bool, true, false, ◌&&◌, ◌||◌, not, List, [], ◌∷◌, ◌==◌, if◌then◌else◌, Option, none,
  some,
}
use ndmpd.Names.{tlm_cat_path}

-- the end of a component: COMPBNDRY
abbrev pub is_boundary : List ℕ → Bool
is_boundary [] = true
is_boundary (c ∷ s) = c == b'/'

abbrev pub is_end : List ℕ → Bool
is_end [] = true
is_end (c ∷ s) = false

-- slashes skipped, and the character before the rest
unfoldable pub skip_leading : ℕ → List ℕ → ℕ × List ℕ
skip_leading before [] = (before, [])
skip_leading before (c ∷ s) = elim (c == b'/') [ true ↦ skip_leading c s | false ↦ (before, c ∷ s) ]

-- the rests of the path and the selection behind what they share, and the character before the
-- path's rest
unfoldable pub skip_common : ℕ → List ℕ → List ℕ → ℕ × (List ℕ × List ℕ)
skip_common before [] sp = (before, ([], sp))
skip_common before (c ∷ pp) [] = (before, (c ∷ pp, []))
skip_common before (c ∷ pp) (d ∷ sp) = elim (c == d) [
  | true ↦ skip_common c pp sp
  | false ↦ (before, (c ∷ pp, d ∷ sp))
]

-- whether the rests show that the path is selected
unfoldable pub is_selected : ℕ → List ℕ → List ℕ → Bool
unfolding skip_leading
is_selected before pp sp =
    if not (is_boundary pp && is_boundary sp) && (not (is_end sp) || not (before == b'/'))
    then false
    else if is_end pp && not (is_end sp)
    then is_end (skip_leading before sp).1
    else true

-- `outer` is the byte in front of the path, which is read when nothing was skipped. `none` is a null
-- pointer.
unfoldable pub mkrsp : ℕ → ℕ → List ℕ → Option (List ℕ) → Option (List ℕ) → Option (List ℕ)
unfolding skip_leading skip_common is_selected
mkrsp path_max outer pp none np =
    tlm_cat_path path_max (elim np [ none ↦ b'/' ∷ [] | some n ↦ n ]) (skip_leading outer pp).1
mkrsp path_max outer pp (some sp) np =
    let (before, p) = skip_leading outer pp in
    let (last, (pr, sr)) = skip_common before p (skip_leading 0 sp).1 in
    if is_selected last pr sr
    then tlm_cat_path path_max (elim np [ none ↦ b'/' ∷ [] | some n ↦ n ]) pr
    else none

-- the selection begins with no slash and ends in none
abbrev EndsPlain : ℕ → List ℕ → Type 0
EndsPlain c [] = (c == b'/') ≡ false
EndsPlain c (d ∷ s) = EndsPlain d s

abbrev last_char : ℕ → List ℕ → ℕ
last_char c [] = c
last_char c (d ∷ s) = last_char d s
