-- ===== src/Properties/Endings.antt =====
-- src/ndmpd_prop.c: the loop of `ndmpd_load_prop` ends.
use ndmpd.Common.{
  ℕ, zero, suc, ◌+◌, ◌≤◌, ◌<◌, ◌≢◌, true, List, [], ◌∷◌, Option, none, some, arith, length,
  if-cases,
}
use ndmpd.DumpDates.Lines.{take_line, fgets}
use ndmpd.Properties.{
  Table, Loaded, loaded, overflow, unterminated, stuck, ◌>>=◌, Scan, scan_char, scan, after_scan,
  is_ignored, setup, c_string, on_fgets, load_rounds, ndmpd_load_prop,
}

take_line-le : (n : ℕ) (s : List ℕ) → length (take_line n s).1 ≤ length s
unfolding take_line
take_line-le zero s = omega arith
take_line-le (suc n) [] = omega arith
take_line-le (suc n) (c ∷ s) = ground (arith, take_line-le n s)

take_line-lt : (n c : ℕ) (s : List ℕ) → length (take_line (suc n) (c ∷ s)).1 < length (c ∷ s)
unfolding take_line
take_line-lt n c s = ground (arith, take_line-le n s)

take_line-rest :
    (n c m : ℕ) (s : List ℕ) → length (c ∷ s) < suc m → length (take_line (suc n) (c ∷ s)).1 < m
take_line-rest n c m s lt = omega (arith, take_line-lt n c s, lt)

-- no result of `setup` is `stuck`
abbrev Ends {ℓ} : {A : Type ℓ} → Loaded A → Type 0
Ends (loaded a) = Unit
Ends overflow = Unit
Ends unterminated = Unit
Ends stuck = ⊥

bind-Ends {ℓ κ} :
    {A : Type ℓ} {B : Type κ} (r : Loaded A) (f : A → Loaded B)
    → Ends r
    → ((a : A) → Ends (f a))
    → Ends (r >>= f)
bind-Ends (loaded a) f h k = k a
bind-Ends overflow f h k = tt
bind-Ends unterminated f h k = tt
bind-Ends stuck f h k = absurd h

scan_char-Ends : (c : ℕ) (s : Scan) → Ends (scan_char c s)
unfolding scan_char
scan_char-Ends c s = ground arith

scan-Ends : (line : List ℕ) (s : Scan) → Ends (scan line s)
unfolding scan
scan-Ends [] s = tt
scan-Ends (c ∷ line) s = bind-Ends (scan_char c s) (scan line) (scan_char-Ends c s) (scan-Ends line)

after_scan-Ends : (table : Table) (s : Scan) → Ends (after_scan table s)
unfolding after_scan
after_scan-Ends table s = ground arith

setup-Ends : (line : List ℕ) (table : Table) → Ends (setup line table)
unfolding setup
setup-Ends line table =
    if-cases Ends (is_ignored line) (λ e. tt)
      (λ e.
        bind-Ends (scan line (record { key = []; value = []; is_key = true })) (after_scan table)
          (scan-Ends line (record { key = []; value = []; is_key = true })) (after_scan-Ends table))

load_rounds-Ends :
    (n : ℕ) (file : List ℕ) (table : Table) → length file < n → Ends (load_rounds n file table)
unfolding load_rounds on_fgets fgets
load_rounds-Ends zero file table lt = absurd (omega arith)
load_rounds-Ends (suc n) [] table lt = tt
load_rounds-Ends (suc n) (c ∷ s) table lt =
    let (line, rest) = take_line 127 (c ∷ s) in
    bind-Ends (setup (c_string line) table) (load_rounds n rest) (setup-Ends (c_string line) table)
      (λ (t : Table). load_rounds-Ends n rest t (take_line-rest 126 c n s lt))

Ends-ne {ℓ} : {A : Type ℓ} (r : Loaded A) → Ends r → r ≢ stuck
Ends-ne (loaded a) h e = cc
Ends-ne overflow h e = cc
Ends-ne unterminated h e = cc
Ends-ne stuck h e = h

-- As many rounds as the file has bytes and one more are enough for every file.
load_prop_ends : (file : Option (List ℕ)) (table : Table) → ndmpd_load_prop file table ≢ stuck
unfolding ndmpd_load_prop
load_prop_ends none table e = cc
load_prop_ends (some file) table e =
    Ends-ne (load_rounds (length file + 1) file table >>= λ (t : Table). loaded (0, t))
      (bind-Ends (load_rounds (length file + 1) file table) (λ (t : Table). loaded (0, t))
        (load_rounds-Ends (length file + 1) file table (omega arith)) (λ t. tt))
      e
