-- ===== src/Properties/Tests.antt =====
-- src/ndmpd_prop.c on concrete lines and files.
use ndmpd.Common.{
  ℕ, ◌≡◌, ◌↔◌, refl, true, List, [], ◌∷◌, ◌==◌, false, All, any, any-All, All-both, some, arith,
  replicate,
}
use ndmpd.Common.Bytes.{codes}
use ndmpd.Properties.{
  Table, ndmpd_cfg_table, is_skipped, setup, store, scan, scan_char, after_scan, has_prefix,
  is_ignored, loaded, overflow, unterminated, ndmpd_load_prop, ndmpd_get_prop,
  ndmpd_get_prop_default, ndmpd_get_prop_yorn, value_at, same_ci,
}
use ndmpd.Properties.Lines.{line_of, IsKeyChar}
use ndmpd.Properties.Bounds.{IsTooLong, setup-overflow_iff, setup-unterminated}
use ndmpd.Properties.Files.{
  Entry, setting, comment, blank, file_of, IsEntry, last_value, load-get_prop,
}

abbrev entries : List Entry
entries =
    comment (codes " logins")
    ∷ blank
    ∷ setting 17 (codes "ClearText-username") (codes "root")
    ∷ setting 18 (codes "cleartext-password") (codes "a=b")
    ∷ setting 8 (codes "restore-fullpath") (codes "TRUE")
    ∷ []

is_key_char :
    (s : List ℕ) → any is_skipped s ≡ false → any (λ c. c == b'=') s ≡ false → All IsKeyChar s
is_key_char s h k =
    All-both (λ c. is_skipped c ≡ false) (λ c. (c == b'=') ≡ false) s (any-All is_skipped s h)
      (any-All (λ c. c == b'=') s k)

is_text :
    (s : List ℕ)
    → any (λ c. c == b'\n') s ≡ false
    → any (λ c. c == 0) s ≡ false
    → All (λ c. ((c == b'\n') ≡ false) × ((c == 0) ≡ false)) s
is_text s h k =
    All-both (λ c. (c == b'\n') ≡ false) (λ c. (c == 0) ≡ false) s (any-All (λ c. c == b'\n') s h)
      (any-All (λ c. c == 0) s k)

entries-IsEntry : All IsEntry entries
unfolding is_ignored
entries-IsEntry = (
  (is_text (codes " logins") refl refl, omega arith),
  (
    tt,
    (
      (
        omega arith,
        refl,
        is_key_char (codes "ClearText-username") refl refl,
        refl,
        any-All is_skipped (codes "root") refl,
        omega arith,
      ),
      (
        (
          omega arith,
          refl,
          is_key_char (codes "cleartext-password") refl refl,
          refl,
          any-All is_skipped (codes "a=b") refl,
          omega arith,
        ),
        (
          (
            omega arith,
            refl,
            is_key_char (codes "restore-fullpath") refl refl,
            refl,
            any-All is_skipped (codes "TRUE") refl,
            omega arith,
          ),
          tt,
        ),
      ),
    ),
  ),
)

-- A key that begins a name stands for the first such name, and an empty one for the first name.
short_key :
    setup (codes "tcp = 7\n") ndmpd_cfg_table
    ≡ loaded (store (codes "tcp-port") (codes "7") ndmpd_cfg_table)
unfolding setup is_ignored scan scan_char after_scan store has_prefix
short_key = refl

empty_key :
    setup (codes "=7\n") ndmpd_cfg_table
    ≡ loaded (store (codes "listen-nic") (codes "7") ndmpd_cfg_table)
unfolding setup is_ignored scan scan_char after_scan store has_prefix
empty_key = refl

yorn : ndmpd_get_prop_yorn ndmpd_cfg_table 2 ≡ true
unfolding ndmpd_get_prop_yorn ndmpd_get_prop value_at same_ci
yorn = refl

default : ndmpd_get_prop_default ndmpd_cfg_table 0 (codes "lo") ≡ codes "lo"
unfolding ndmpd_get_prop_default ndmpd_get_prop value_at
default = refl

setup-overflow_iff_example :
    (setup (line_of (codes "k") (replicate 65 b'v')) ndmpd_cfg_table ≡ overflow)
    ↔ IsTooLong (codes "k") (replicate 65 b'v')
unfolding is_ignored
setup-overflow_iff_example =
    setup-overflow_iff (codes "k") (replicate 65 b'v') ndmpd_cfg_table
      (is_key_char (codes "k") refl refl) (any-All is_skipped (replicate 65 b'v') refl) refl

setup-unterminated_example : setup (codes " \r\n") ndmpd_cfg_table ≡ unterminated
unfolding is_ignored
setup-unterminated_example =
    setup-unterminated (codes " \r\n") ndmpd_cfg_table
      (any-All (λ c. c == b'=') (codes " \r\n") refl) (omega arith) refl

load-get_prop_example :
    (t : Table) × (ndmpd_load_prop (some (file_of entries)) ndmpd_cfg_table ≡ loaded (0, t))
    × ((j : ℕ) → ndmpd_get_prop t j ≡ last_value j entries (ndmpd_get_prop ndmpd_cfg_table j))
unfolding is_ignored
load-get_prop_example = load-get_prop entries ndmpd_cfg_table entries-IsEntry refl
