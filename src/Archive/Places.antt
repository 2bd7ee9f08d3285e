-- ===== src/Archive/Places.antt =====
-- What `tar_getdir` finds at the places of a record that `output_file_header` gives out.
use ndmpd.Common.{
  ℕ, zero, suc, ◌+◌, ◌≤◌, ◌<◌, ◌≡◌, refl, sym, ap, ◌∙◌, List, [], ◌∷◌, ◌++◌, append_assoc, arith,
  length, drop, replicate,
}
use ndmpd.Base64.{done}
use ndmpd.TarHeader.{octal, uint_mod}
use ndmpd.Archive.{Header, field, parts, header_bytes, number_at, format_0o}
use ndmpd.Archive.Fields.{length-field, number_at-field}
use ndmpd.Archive.Headers.{built, built-IsHeader, before_lem, behind_lem, drop_first}

-- the bytes from each field on
abbrev pub from_gname : Header → List ℕ
from_gname h = field 32 h.th_gname ++ (field 12 h.th_hlink_ino ++ replicate 171 0)

abbrev pub from_linkname : Header → List ℕ
from_linkname h =
    field 100 h.th_linkname ++ (field 8 h.th_magic ++ (field 32 h.th_uname ++ from_gname h))

abbrev pub from_chksum : Header → List ℕ
from_chksum h = (built h).th_chksum ++ (h.th_linkflag ∷ from_linkname h)

abbrev pub from_size : Header → List ℕ
from_size h = field 12 h.th_size ++ (field 12 h.th_mtime ++ from_chksum h)

abbrev pub from_mode : Header → List ℕ
from_mode h = field 8 h.th_mode ++ (field 8 h.th_uid ++ (field 8 h.th_gid ++ from_size h))

six_joined :
    (a b c d e f r : List ℕ)
    → (a ++ (b ++ (c ++ (d ++ (e ++ f))))) ++ r ≡ a ++ (b ++ (c ++ (d ++ (e ++ (f ++ r)))))
six_joined a b c d e f r = simp append_assoc

pub at_name : (h : Header) → header_bytes h ≡ field 100 h.th_name ++ from_mode h
unfolding header_bytes parts
at_name h =
    ap (λ (r : List ℕ). r ++ ((built h).th_chksum ++ (built h).behind)) (before_lem h)
    ∙ (ap (λ (r : List ℕ). (parts h).before ++ ((built h).th_chksum ++ r)) (behind_lem h)
        ∙ six_joined (field 100 h.th_name) (field 8 h.th_mode) (field 8 h.th_uid) (field 8 h.th_gid)
            (field 12 h.th_size) (field 12 h.th_mtime) (from_chksum h))

drop_none : (n : ℕ) → drop {A = ℕ} n [] ≡ []
drop_none zero = refl
drop_none (suc n) = refl

drop-drop : (m n : ℕ) (s : List ℕ) → drop (m + n) s ≡ drop n (drop m s)
drop-drop zero n s = ap (λ (j : ℕ). drop j s) (omega arith)
drop-drop (suc m) n [] = drop_none (suc m + n) ∙ sym (drop_none n)
drop-drop (suc m) n (x ∷ s) =
    let next : suc m + n ≡ suc (m + n) = omega arith in
    ap (λ (j : ℕ). drop j (x ∷ s)) next ∙ drop-drop m n s

-- the next place, behind a field
next_at : (m n : ℕ) (b s t : List ℕ) → drop m b ≡ s ++ t → length s ≡ n → drop (m + n) b ≡ t
next_at m n b s t e l = drop-drop m n b ∙ (ap (λ (r : List ℕ). drop n r) e ∙ drop_first n s t l)

pub at_mode : (h : Header) → drop 100 (header_bytes h) ≡ from_mode h
at_mode h =
    ap (λ (r : List ℕ). drop 100 r) (at_name h)
    ∙ drop_first 100 (field 100 h.th_name) (from_mode h) (length-field 99 h.th_name)

pub at_uid :
    (h : Header) → drop 108 (header_bytes h) ≡ field 8 h.th_uid ++ (field 8 h.th_gid ++ from_size h)
at_uid h =
    next_at 100 8 (header_bytes h) (field 8 h.th_mode) _ (at_mode h) (length-field 7 h.th_mode)

pub at_gid : (h : Header) → drop 116 (header_bytes h) ≡ field 8 h.th_gid ++ from_size h
at_gid h = next_at 108 8 (header_bytes h) (field 8 h.th_uid) _ (at_uid h) (length-field 7 h.th_uid)

pub at_size : (h : Header) → drop 124 (header_bytes h) ≡ from_size h
at_size h = next_at 116 8 (header_bytes h) (field 8 h.th_gid) _ (at_gid h) (length-field 7 h.th_gid)

pub at_mtime : (h : Header) → drop 136 (header_bytes h) ≡ field 12 h.th_mtime ++ from_chksum h
at_mtime h =
    next_at 124 12 (header_bytes h) (field 12 h.th_size) _ (at_size h) (length-field 11 h.th_size)

at_chksum : (h : Header) → drop 148 (header_bytes h) ≡ from_chksum h
at_chksum h =
    next_at 136 12 (header_bytes h) (field 12 h.th_mtime) _ (at_mtime h)
      (length-field 11 h.th_mtime)

pub at_flag : (h : Header) → drop 156 (header_bytes h) ≡ h.th_linkflag ∷ from_linkname h
at_flag h =
    next_at 148 8 (header_bytes h) (built h).th_chksum _ (at_chksum h)
      (built-IsHeader h).chksum_size

pub at_linkname : (h : Header) → drop 157 (header_bytes h) ≡ from_linkname h
at_linkname h = next_at 156 1 (header_bytes h) (h.th_linkflag ∷ []) _ (at_flag h) refl

at_magic :
    (h : Header)
    → drop 257 (header_bytes h) ≡ field 8 h.th_magic ++ (field 32 h.th_uname ++ from_gname h)
at_magic h =
    next_at 157 100 (header_bytes h) (field 100 h.th_linkname) _ (at_linkname h)
      (length-field 99 h.th_linkname)

pub at_uname : (h : Header) → drop 265 (header_bytes h) ≡ field 32 h.th_uname ++ from_gname h
at_uname h =
    next_at 257 8 (header_bytes h) (field 8 h.th_magic) _ (at_magic h) (length-field 7 h.th_magic)

pub at_gname : (h : Header) → drop 297 (header_bytes h) ≡ from_gname h
at_gname h =
    next_at 265 32 (header_bytes h) (field 32 h.th_uname) _ (at_uname h)
      (length-field 31 h.th_uname)

pub at_ino : (h : Header) → drop 329 (header_bytes h) ≡ field 12 h.th_hlink_ino ++ replicate 171 0
at_ino h =
    next_at 297 32 (header_bytes h) (field 32 h.th_gname) _ (at_gname h)
      (length-field 31 h.th_gname)

-- a place that is known, read
pub number_placed :
    (b : List ℕ) (size width n : ℕ) (rest : List ℕ)
    → b ≡ field (suc size) (format_0o width n) ++ rest
    → n < uint_mod
    → length (octal 22 n []) ≤ size
    → width ≤ size
    → number_at b ≡ done n
number_placed b size width n rest e w le fits =
    ap number_at e ∙ number_at-field size width n rest w le fits
