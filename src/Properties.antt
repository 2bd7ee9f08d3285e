-- ===== src/Properties.antt =====
-- src/ndmpd_prop.c: the table of the properties and how it is filled from a file. A C string is the
-- list of its bytes before the NUL.
pub mod Lines
pub mod Bounds
pub mod Keys
pub mod Files
pub mod Endings
pub mod Logins
mod Tests
use ndmpd.Common.{
  ℕ, zero, suc, ◌+◌, Bool, true, false, ◌&&◌, ◌||◌, List, [], ◌∷◌, ◌++◌, map, Option, none, some,
  ltb, leb, ◌==◌, if◌then◌else◌, length, get_elem?,
}
use ndmpd.Common.Bytes.{codes}
use ndmpd.DumpDates.Lines.{fgets}

-- `ndmpd_cfg_param_t`
pub record Param : Type 0 where
  pub name : List ℕ
  pub value : List ℕ

abbrev pub Table : Type 0
Table = List Param

abbrev param : List ℕ → List ℕ → Param
param n v = record { name = n; value = v }

abbrev flags : Table
flags =
    param (codes "dump-pathnode") (codes "true")
    ∷ param (codes "tar-pathnode") (codes "true")
    ∷ param (codes "fh-inode") (codes "true")
    ∷ param (codes "ignore-ctime") (codes "false")
    ∷ param (codes "include-lmtime") (codes "false")
    ∷ param (codes "version") (codes "4")
    ∷ param (codes "restore-fullpath") (codes "false")
    ∷ []

abbrev sizes : Table
sizes =
    param (codes "debug-path") (codes "/var/log/ndmp")
    ∷ param (codes "plugin-path") (codes "/var/log/ndmp")
    ∷ param (codes "socket-css") (codes "65")
    ∷ param (codes "socket-crs") (codes "80")
    ∷ param (codes "mover-recordsize") (codes "60")
    ∷ param (codes "restore-wildcard-enable") (codes "false")
    ∷ []

abbrev logins : Table
logins =
    param (codes "cram-md5-username") []
    ∷ param (codes "cram-md5-password") []
    ∷ param (codes "cleartext-username") []
    ∷ param (codes "cleartext-password") []
    ∷ param (codes "tcp-port") (codes "10000")
    ∷ param (codes "backup-quarantine") (codes "false")
    ∷ param (codes "restore-quarantine") (codes "false")
    ∷ param (codes "overwrite-quarantine") (codes "false")
    ∷ []

-- The table before a file is loaded; the values of `ndmpd_cfg_id_t` are its indices.
abbrev pub ndmpd_cfg_table : Table
ndmpd_cfg_table =
    param (codes "listen-nic") [] ∷ param (codes "serve-nic") [] ∷ flags ++ (sizes ++ logins)

abbrev pub ndmp_maxall : ℕ
ndmp_maxall = 23

-- What the reading of lines leads to: a result, a write behind one of the arrays, or a use of a key
-- that has no NUL. `stuck` marks that the fuel is used up.
pub data Loaded {ℓ} (A : Type ℓ) : Type ℓ where
  loaded : A → Loaded A
  overflow : Loaded A
  unterminated : Loaded A
  stuck : Loaded A

infixl 5 ◌>>=◌
abbrev pub ◌>>=◌ {ℓ κ} : {A : Type ℓ} {B : Type κ} → Loaded A → (A → Loaded B) → Loaded B
loaded a >>= f = f a
overflow >>= f = overflow
unterminated >>= f = unterminated
stuck >>= f = stuck

-- The bytes of `key` and `value` that are written, and `iskey`
pub record Scan : Type 0 where
  pub key : List ℕ
  pub value : List ℕ
  pub is_key : Bool

abbrev pub tolower : ℕ → ℕ
tolower c = if leb b'A' c && leb c b'Z' then c + 32 else c

-- `line[idx] < 33 || line[idx] > 126`
abbrev pub is_skipped : ℕ → Bool
is_skipped c = ltb c 33 || ltb 126 c

-- a round of the loop over the line
unfoldable pub scan_char : ℕ → Scan → Loaded Scan
scan_char c s =
    if is_skipped c
    then loaded s
    else if c == b'=' && s.is_key
    then if ltb (length s.key) 64 then loaded (record s { is_key = false }) else overflow
    else if s.is_key
    then if ltb (length s.key) 64
      then loaded (record s { key = s.key ++ (tolower c ∷ []) })
      else overflow
    else if ltb (length s.value) 65
    then loaded (record s { value = s.value ++ (c ∷ []) })
    else overflow

unfoldable pub scan : List ℕ → Scan → Loaded Scan
unfolding scan_char
scan [] s = loaded s
scan (c ∷ line) s = scan_char c s >>= scan line

-- `!strncmp(name, key, strlen(key))`
unfoldable pub has_prefix : List ℕ → List ℕ → Bool
has_prefix name [] = true
has_prefix [] (k ∷ key) = false
has_prefix (n ∷ name) (k ∷ key) = n == k && has_prefix name key

-- the loop over the table
unfoldable pub store : List ℕ → List ℕ → Table → Table
unfolding has_prefix
store key value [] = []
store key value (p ∷ table) =
    if has_prefix p.name key then record p { value = value } ∷ table else p ∷ store key value table

-- what follows the loop over the line
unfoldable pub after_scan : Table → Scan → Loaded Table
unfolding store
after_scan table s =
    if leb 65 (length s.value)
    then overflow
    else if ltb 64 (length s.value)
    then loaded table
    else if s.is_key
    then unterminated
    else loaded (store s.key s.value table)

-- `strlen(line) == 0 || line[0] == '#' || line[0] == '\n'`
unfoldable pub is_ignored : List ℕ → Bool
is_ignored [] = true
is_ignored (c ∷ line) = c == b'#' || c == b'\n'

unfoldable pub setup : List ℕ → Table → Loaded Table
unfolding is_ignored scan after_scan
setup line table =
    if is_ignored line
    then loaded table
    else scan line (record { key = []; value = []; is_key = true }) >>= after_scan table

-- the bytes of a buffer before the first NUL
unfoldable pub c_string : List ℕ → List ℕ
c_string [] = []
c_string (c ∷ s) = if c == 0 then [] else c ∷ c_string s

-- what a round of the loop over the file does with what `fgets` gave
unfoldable pub on_fgets :
    (List ℕ → Table → Loaded Table) → Table → Option (List ℕ × List ℕ) → Loaded Table
unfolding setup c_string
on_fgets again table none = loaded table
on_fgets again table (some (line, rest)) = setup (c_string line) table >>= again rest

-- the rounds, on fuel: each takes a byte of the file
unfoldable pub load_rounds : ℕ → List ℕ → Table → Loaded Table
unfolding on_fgets fgets
load_rounds zero file table = stuck
load_rounds (suc n) file table = on_fgets (load_rounds n) table (fgets 128 file)

-- The returned number and the table; a file that cannot be opened is `none`.
unfoldable pub ndmpd_load_prop : Option (List ℕ) → Table → Loaded (ℕ × Table)
unfolding load_rounds
ndmpd_load_prop none table = loaded (1, table)
ndmpd_load_prop (some file) table =
    load_rounds (length file + 1) file table >>= λ (t : Table). loaded (0, t)

unfoldable pub value_at : Table → ℕ → Option (List ℕ)
value_at [] id = none
value_at (p ∷ table) zero = some p.value
value_at (p ∷ table) (suc id) = value_at table id

unfoldable pub ndmpd_get_prop : Table → ℕ → Option (List ℕ)
unfolding value_at
ndmpd_get_prop table id = if ltb id ndmp_maxall then value_at table id else none

abbrev given_or : List ℕ → Option (List ℕ) → List ℕ
given_or dflt none = dflt
given_or dflt (some []) = dflt
given_or dflt (some (c ∷ env)) = c ∷ env

unfoldable pub ndmpd_get_prop_default : Table → ℕ → List ℕ → List ℕ
unfolding ndmpd_get_prop
ndmpd_get_prop_default table id dflt = given_or dflt (ndmpd_get_prop table id)

-- `strcasecmp(a, b) == 0`
unfoldable pub same_ci : List ℕ → List ℕ → Bool
same_ci [] [] = true
same_ci [] (y ∷ b) = false
same_ci (x ∷ a) [] = false
same_ci (x ∷ a) (y ∷ b) = tolower x == tolower y && same_ci a b

abbrev is_true : Option (List ℕ) → Bool
is_true none = false
is_true (some v) = same_ci v (codes "true")

unfoldable pub ndmpd_get_prop_yorn : Table → ℕ → Bool
unfolding ndmpd_get_prop same_ci
ndmpd_get_prop_yorn table id = is_true (ndmpd_get_prop table id)
