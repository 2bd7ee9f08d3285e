-- ===== src/DumpDates/Lines/Records.antt =====
-- src/ndmpd_dtime.c: a record that `dumprecout` writes is read back by `getrecord`.
use ndmpd.Common.{
  take_all, ℕ, ◌%◌, ltb, true, suc, ◌+◌, ◌-◌, ◌<◌, ◌≡◌, ◌≢◌, inl, inr, refl, sym, ap, ◌∙◌, false,
  ◌||◌, List, [], ◌∷◌, ◌++◌, ◌==◌, some, arith, Bool-cases, take, length, length-append,
  append_assoc, append-nil, drop,
}
use ndmpd.DumpDates.{DumpDate, is_blank}
use ndmpd.DumpDates.Fields.{get_ddname, get_ddlevel, get_ddate, put_ddname, put_ddlevel, dumprecout}
use ndmpd.DumpDates.Fields.Laws.{
  IsWritable, IsLevel, skip_blanks-StartsPlain, get_ddname-put_ddname, get_ddlevel-put_ddlevel,
}
use ndmpd.DumpDates.Dates.{Tm, unctime}
use ndmpd.DumpDates.Dates.Asctime.{Civil, IsCivil, asctime, tm_of_civil, unctime-asctime}
use ndmpd.DumpDates.Lines.{
  got, last_of, getline_ndmpd, record_of, dated, makedumpdate, read_record, on_getline, getrecord,
}
use ndmpd.DumpDates.Lines.Written.{OneLine, last_of-append, getline-line}
use ndmpd.DumpDates.Lines.Text.{IsLetter, Named, IsKept, line_of, asctime-OneLine, line_of-OneLine}

put_ddname-Named : (nm t : List ℕ) → Named nm → Named (put_ddname nm ++ t)
unfolding put_ddname
put_ddname-Named [] t h = absurd h
put_ddname-Named (c ∷ nm) t h = elim (Bool-cases (c == b' ' || (c == b'\n' || c == b'\t'))) [
  | inl e ↦ rw e (λ q. omega (arith, q))
  | inr e ↦ rw e h
]

getline-Named :
    (s rest : List ℕ) (bufsiz : ℕ)
    → OneLine s
    → Named s
    → last_of 0 s ≢ b'\\'
    → length s + 1 < bufsiz
    → getline_ndmpd (s ++ (b'\n' ∷ rest)) bufsiz ≡ got s rest
getline-Named [] rest bufsiz h n b lt = absurd n
getline-Named (c ∷ s) rest bufsiz h n b lt = getline-line c s rest bufsiz h n b (omega (arith, lt))

last_of-line :
    (nm : List ℕ) (level : ℕ) (x : ℕ) (text : List ℕ)
    → last_of 0 (line_of nm level (x ∷ text)) ≡ last_of x text
last_of-line nm level x text =
    last_of-append 0 b'\t' (put_ddname nm) (put_ddlevel level ++ (b'\t' ∷ x ∷ text))
    ∙ last_of-append b'\t' b'\t' (put_ddlevel level) (x ∷ text)

get_ddname-line :
    (nm rest : List ℕ)
    → Named nm
    → IsWritable nm
    → get_ddname (put_ddname nm ++ (b'\t' ∷ rest)) ≡ (nm, rest)
get_ddname-line [] rest n w = absurd n
get_ddname-line (c ∷ nm) rest n w = get_ddname-put_ddname c nm rest w

dumprecout-line :
    (ctime : ℕ → List ℕ) (d : DumpDate) (text rest : List ℕ)
    → ctime d.dd_ddate ≡ text ++ (b'\n' ∷ [])
    → dumprecout ctime d ++ rest ≡ line_of d.dd_name d.dd_level text ++ (b'\n' ∷ rest)
unfolding dumprecout
dumprecout-line ctime d text rest e = simp (e, append_assoc)

length_line :
    (ctime : ℕ → List ℕ) (d : DumpDate) (text : List ℕ)
    → ctime d.dd_ddate ≡ text ++ (b'\n' ∷ [])
    → length (dumprecout ctime d) ≡ length (line_of d.dd_name d.dd_level text) + 1
length_line ctime d text e =
    let line = line_of d.dd_name d.dd_level text in
    ap (λ s. length s) (sym (append-nil (dumprecout ctime d)) ∙ dumprecout-line ctime d text [] e)
    ∙ length-append line (b'\n' ∷ [])

-- a text of `asctime` behind its first character
asctime_tail : ℕ → ℕ → Civil → List ℕ
unfolding asctime
asctime_tail y z c = drop 1 (asctime 0 y z c)

asctime-tail : (x y z : ℕ) (c : Civil) → asctime x y z c ≡ x ∷ asctime_tail y z c
unfolding asctime asctime_tail
asctime-tail x y z c = refl

asctime_end : (x y z : ℕ) (c : Civil) → last_of x (asctime_tail y z c) ≢ b'\\'
unfolding asctime asctime_tail
asctime_end x y z c q = omega (arith, q)

line_of-end :
    (nm : List ℕ) (level x y z : ℕ) (c : Civil)
    → last_of 0 (line_of nm level (asctime x y z c)) ≢ b'\\'
line_of-end nm level x y z c q = asctime_end x y z c (
    sym (last_of-line nm level x (asctime_tail y z c))
    ∙ ap (λ t. last_of 0 (line_of nm level t)) (sym (asctime-tail x y z c))
    ∙ q)

module _ (mktime : Tm → ℕ) (junk : List ℕ) (bufsiz path_name : ℕ) where
  makedumpdate-fields :
      (line nm r s : List ℕ) (level t : ℕ)
      → get_ddname line ≡ (nm, r)
      → get_ddlevel r ≡ some (level, s)
      → unctime mktime junk (get_ddate s) ≡ some t
      → length nm < path_name
      → level < 128
      → makedumpdate mktime junk bufsiz path_name line
        ≡ some (record { dd_name = nm; dd_level = level; dd_ddate = t })
  unfolding makedumpdate dated
  makedumpdate-fields line nm r s level t a b c fits lt =
      let same : level % 256 ≡ level = omega (arith, lt) in
      let positive : ltb level 128 ≡ true = ground (arith, lt) in
      rw (makedumpdate, ap (λ p. p.1) a, b, c, same, positive)
        (ap some (λ i. record {
          dd_name =
              (ap (λ p. take (path_name - 1) p.0) a
                  ∙ take_all (path_name - 1) nm (omega (arith, fits)))
                i;
          dd_level = level;
          dd_ddate = t;
        }))

  makedumpdate-line :
      (d : DumpDate) (x y z : ℕ) (c : Civil)
      → Named d.dd_name
      → IsWritable d.dd_name
      → IsLevel d.dd_level
      → length d.dd_name < path_name
      → IsLetter x
      → IsCivil c
      → mktime (tm_of_civil c) ≡ d.dd_ddate
      → makedumpdate mktime junk bufsiz path_name (line_of d.dd_name d.dd_level (asctime x y z c))
        ≡ some d
  unfolding get_ddate asctime
  makedumpdate-line d x y z c n w l fits a v e =
      let text : List ℕ = asctime x y z c in
      let plain : is_blank x ≡ false = ground (arith, a) in
      makedumpdate-fields (line_of d.dd_name d.dd_level text) d.dd_name
        (put_ddlevel d.dd_level ++ (b'\t' ∷ text)) text d.dd_level d.dd_ddate
        (get_ddname-line d.dd_name (put_ddlevel d.dd_level ++ (b'\t' ∷ text)) n w)
        (get_ddlevel-put_ddlevel d.dd_level text l)
        (ap (λ s. unctime mktime junk s) (skip_blanks-StartsPlain text plain)
          ∙ unctime-asctime mktime junk x y z c v
          ∙ ap some e)
        fits l.0

  getrecord-line :
      (n : ℕ) (line rest : List ℕ) (d : DumpDate)
      → getline_ndmpd (line ++ (b'\n' ∷ rest)) bufsiz ≡ got line rest
      → Named line
      → makedumpdate mktime junk bufsiz path_name line ≡ some d
      → getrecord mktime junk bufsiz path_name (suc n) (line ++ (b'\n' ∷ rest)) ≡ record_of d rest
  unfolding getrecord on_getline read_record
  getrecord-line n [] rest d g h m = absurd h
  getrecord-line n (c ∷ line) rest d g h m = rw (g, on_getline, read_record, m) refl

  pub getrecord-kept :
      (ctime : ℕ → List ℕ) (n : ℕ) (d : DumpDate) (rest : List ℕ)
      → IsKept mktime ctime bufsiz path_name d
      → getrecord mktime junk bufsiz path_name (suc n) (dumprecout ctime d ++ rest)
        ≡ record_of d rest
  getrecord-kept ctime n d rest k =
      let v = k.date_valid in
      let x = v.day_name.0 in
      let y = v.day_name.1.0 in
      let z = v.day_name.1.1 in
      let text : List ℕ = asctime x y z v.civil in
      let line = line_of d.dd_name d.dd_level text in
      let split = dumprecout-line ctime d text in
      let one = line_of-OneLine d.dd_name d.dd_level text k.writable (
        asctime-OneLine x y z v.civil v.first_letter v.second_letter v.third_letter
          v.civil_valid.month_lt) in
      let named =
        put_ddname-Named d.dd_name (b'\t' ∷ (put_ddlevel d.dd_level ++ (b'\t' ∷ text))) k.named in
      let end : last_of 0 line ≢ b'\\' = line_of-end d.dd_name d.dd_level x y z v.civil in
      let fits : length line + 1 < bufsiz =
        omega (arith, k.line_fits, length_line ctime d text v.text_of) in
      rw (split rest v.text_of) (
        getrecord-line n line rest d (getline-Named line rest bufsiz one named end fits) named (
          makedumpdate-line d x y z v.civil k.named k.writable k.level_valid k.name_fits
            v.first_letter v.civil_valid v.time_of))
