-- ===== src/Properties/Files.antt =====
-- src/ndmpd_prop.c: `ndmpd_load_prop` on whole files.
use ndmpd.Common.{
  ℕ, zero, suc, ◌+◌, ◌≤◌, ◌<◌, ◌≡◌, refl, sym, ap, ◌∙◌, false, List, [], ◌∷◌, ◌++◌, map,
  append_assoc, Option, some, arith, ◌==◌, length, length-append, All,
}
use ndmpd.DumpDates.Lines.{fgets}
use ndmpd.DumpDates.Lines.Written.{OneLine, fgets-line}
use ndmpd.Properties.{
  Table, Loaded, loaded, tolower, is_skipped, store, is_ignored, setup, c_string, on_fgets,
  load_rounds, ndmpd_load_prop, ndmp_maxall, ndmpd_get_prop,
}
use ndmpd.Properties.Lines.{IsVisible, IsKeyChar, line_of, setup_lem, length-lower}
use ndmpd.Properties.Keys.{IsNamed, name_of, name_of_lem, changed, store-IsNamed, get_prop-store}

-- What a file can say: a property, with its key in any case, or a line that is skipped
pub data Entry : Type 0 where
  setting : (id : ℕ) → (key value : List ℕ) → Entry
  comment : List ℕ → Entry
  blank : Entry

-- its line, without the newline
abbrev text_of : Entry → List ℕ
text_of (setting id key value) = key ++ (b'=' ∷ value)
text_of (comment s) = b'#' ∷ s
text_of blank = []

abbrev pub file_of : List Entry → List ℕ
file_of [] = []
file_of (e ∷ es) = text_of e ++ (b'\n' ∷ file_of es)

-- neither a newline nor a NUL
abbrev IsText : List ℕ → Type 0
IsText = All (λ c. ((c == b'\n') ≡ false) × ((c == 0) ≡ false))

abbrev pub IsEntry : Entry → Type 0
IsEntry (setting id key value) =
    (id < ndmp_maxall)
    × (map tolower key ≡ name_of id)
    × All IsKeyChar key
    × (is_ignored key ≡ false)
    × All IsVisible value
    × (length value ≤ 64)
IsEntry (comment s) = IsText s × (length s ≤ 125)
IsEntry blank = Unit

-- the value of a property behind the entries: the last one given, or the old one
abbrev pub last_value : ℕ → List Entry → Option (List ℕ) → Option (List ℕ)
last_value j [] old = old
last_value j (setting id key value ∷ es) old = last_value j es (changed id j value old)
last_value j (comment s ∷ es) old = last_value j es old
last_value j (blank ∷ es) old = last_value j es old

abbrev stored : Entry → Table → Table
stored (setting id key value) table = store (name_of id) value table
stored (comment s) table = table
stored blank table = table

visible-text : (c : ℕ) → is_skipped c ≡ false → ((c == b'\n') ≡ false) × ((c == 0) ≡ false)
visible-text c h = (ground (arith, h), ground (arith, h))

value-IsText : (s : List ℕ) → All IsVisible s → IsText s
value-IsText [] h = tt
value-IsText (c ∷ s) (v, h) = (visible-text c v, value-IsText s h)

key-IsText : (s : List ℕ) → All IsKeyChar s → IsText s
key-IsText [] h = tt
key-IsText (c ∷ s) ((v, e), h) = (visible-text c v, key-IsText s h)

IsText-append : (s t : List ℕ) → IsText s → IsText t → IsText (s ++ t)
IsText-append [] t h k = k
IsText-append (c ∷ s) t (e, h) k = (e, IsText-append s t h k)

IsText-OneLine : (s : List ℕ) → IsText s → OneLine s
IsText-OneLine [] h = tt
IsText-OneLine (c ∷ s) ((e, z), h) = (e, IsText-OneLine s h)

c_string-line : (s : List ℕ) → IsText s → c_string (s ++ (b'\n' ∷ [])) ≡ s ++ (b'\n' ∷ [])
unfolding c_string
c_string-line [] h = refl
c_string-line (c ∷ s) ((e, z), h) = rw z (ap (λ r. c ∷ r) (c_string-line s h))

entry-IsText : (e : Entry) → IsEntry e → IsText (text_of e)
entry-IsText (setting id key value) (lt, n, k, i, v, le) =
    IsText-append key (b'=' ∷ value) (key-IsText key k)
      (visible-text b'=' refl, value-IsText value v)
entry-IsText (comment s) (h, le) = (visible-text b'#' refl, h)
entry-IsText blank h = tt

length-key :
    (id : ℕ) (key : List ℕ) → id < ndmp_maxall → map tolower key ≡ name_of id → length key < 32
length-key id key lt n =
    let same : length key ≡ length (name_of id) = sym (length-lower key) ∙ ap length n in
    rw same (name_of_lem id lt).1

entry-fits : (e : Entry) → IsEntry e → length (text_of e) + 1 < 128
entry-fits (setting id key value) (lt, n, k, i, v, le) =
    omega (arith, length-append key (b'=' ∷ value), length-key id key lt n)
entry-fits (comment s) (h, le) = omega arith
entry-fits blank h = omega arith

is_ignored-append : (s t : List ℕ) → is_ignored s ≡ false → is_ignored (s ++ t) ≡ false
unfolding is_ignored
is_ignored-append [] t h = cc
is_ignored-append (c ∷ s) t h = h

setup-entry :
    (e : Entry) (table : Table)
    → IsEntry e
    → setup (text_of e ++ (b'\n' ∷ [])) table ≡ loaded (stored e table)
setup-entry (setting id key value) table (lt, n, k, i, v, le) =
    let line : setup (line_of key value) table ≡ loaded (store (map tolower key) value table) =
      setup_lem key value table k v (omega (arith, length-key id key lt n)) le
        (is_ignored-append key (b'=' ∷ value ++ (b'\n' ∷ [])) i) in
    rw (append_assoc key (b'=' ∷ value) (b'\n' ∷ []))
      (line ∙ ap (λ (r : List ℕ). loaded (store r value table)) n)
setup-entry (comment s) table h = unfold setup is_ignored in refl
setup-entry blank table h = unfold setup is_ignored in refl

on_fgets-entry :
    (again : List ℕ → Table → Loaded Table) (e : Entry) (rest : List ℕ) (table : Table)
    → IsEntry e
    → on_fgets again table (fgets 128 (text_of e ++ (b'\n' ∷ rest))) ≡ again rest (stored e table)
unfolding on_fgets
on_fgets-entry again e rest table h =
    let text = entry-IsText e h in
    rw
      (
        fgets-line 128 (text_of e) rest (IsText-OneLine (text_of e) text) (entry-fits e h),
        c_string-line (text_of e) text,
        setup-entry e table h,
      )
      refl

-- the table behind the entries
abbrev pub all_stored : List Entry → Table → Table
all_stored [] table = table
all_stored (e ∷ es) table = all_stored es (stored e table)

load_rounds-file :
    (n : ℕ) (es : List Entry) (table : Table)
    → All IsEntry es
    → length (file_of es) < n
    → load_rounds n (file_of es) table ≡ loaded (all_stored es table)
unfolding load_rounds
load_rounds-file zero es table h lt = absurd (omega arith)
load_rounds-file (suc n) [] table h lt = unfold on_fgets fgets in refl
load_rounds-file (suc n) (e ∷ es) table (h, hs) lt =
    on_fgets-entry (load_rounds n) e (file_of es) table h
    ∙ load_rounds-file n es (stored e table) hs
        (omega (arith, lt, length-append (text_of e) (b'\n' ∷ file_of es)))

stored-IsNamed : (e : Entry) (table : Table) → IsNamed table → IsNamed (stored e table)
stored-IsNamed (setting id key value) table h = store-IsNamed (name_of id) value table h
stored-IsNamed (comment s) table h = h
stored-IsNamed blank table h = h

pub all_stored-IsNamed :
    (es : List Entry) (table : Table) → IsNamed table → IsNamed (all_stored es table)
all_stored-IsNamed [] table h = h
all_stored-IsNamed (e ∷ es) table h =
    all_stored-IsNamed es (stored e table) (stored-IsNamed e table h)

get_prop-all_stored :
    (j : ℕ) (es : List Entry) (table : Table)
    → All IsEntry es
    → IsNamed table
    → ndmpd_get_prop (all_stored es table) j ≡ last_value j es (ndmpd_get_prop table j)
get_prop-all_stored j [] table h n = refl
get_prop-all_stored j (setting id key value ∷ es) table (h, hs) n =
    get_prop-all_stored j es (store (name_of id) value table) hs
      (store-IsNamed (name_of id) value table n)
    ∙ ap (λ (r : Option (List ℕ)). last_value j es r) (get_prop-store id j value table n h.0)
get_prop-all_stored j (comment s ∷ es) table (h, hs) n = get_prop-all_stored j es table hs n
get_prop-all_stored j (blank ∷ es) table (h, hs) n = get_prop-all_stored j es table hs n

-- Loading a file of comments of at most 125 characters, empty lines and settings, each with the whole
-- name of a property in any case and a value of at most 64 visible characters, into a table with the
-- names of the program succeeds, and a property then has the value of its last setting, or the one it
-- had when there is none.
pub load-get_prop :
    (es : List Entry) (table : Table)
    → All IsEntry es
    → IsNamed table
    → (t : Table) × (ndmpd_load_prop (some (file_of es)) table ≡ loaded (0, t))
      × ((j : ℕ) → ndmpd_get_prop t j ≡ last_value j es (ndmpd_get_prop table j))
unfolding ndmpd_load_prop
load-get_prop es table h n = (
  all_stored es table,
  rw (load_rounds-file (length (file_of es) + 1) es table h (omega arith)) refl,
  λ j. get_prop-all_stored j es table h n,
)
