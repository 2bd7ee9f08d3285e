-- ===== src/DumpDates/Lines.antt =====
-- src/ndmpd_dtime.c: how the file of dump dates is read, line by line. A file is the list of its
-- bytes, none of them NUL. BUFSIZ, a constant of the system, is a parameter.
pub mod Written
pub mod Text
pub mod Records
use ndmpd.Common.{
  ℕ, zero, suc, ◌+◌, ◌-◌, Bool, true, false, ◌&&◌, ◌||◌, not, List, [], ◌∷◌, ◌++◌, leb, ltb, ◌%◌,
  ◌==◌, if◌then◌else◌, Option, none, some, length, take,
}
use ndmpd.DumpDates.{DumpDate}
use ndmpd.DumpDates.Fields.{get_ddname, get_ddlevel, get_ddate}
use ndmpd.DumpDates.Dates.{Tm, unctime}

-- what `fgets` takes of a file for `n` characters
unfoldable pub take_line : ℕ → List ℕ → List ℕ × List ℕ
take_line zero s = ([], s)
take_line (suc n) [] = ([], [])
take_line (suc n) (c ∷ s) =
    let (l, r) = take_line n s in if c == b'\n' then (c ∷ [], s) else (c ∷ l, r)

-- the library's `fgets`; `none` is a null pointer, at the end of the file
unfoldable pub fgets : ℕ → List ℕ → Option (List ℕ × List ℕ)
unfolding take_line
fgets n [] = none
fgets n (c ∷ s) = some (take_line (n - 1) (c ∷ s))

-- What `getline_ndmpd` gives: a line and the rest of the file, a null pointer, or a loop without end
pub data Line : Type 0 where
  got : List ℕ → List ℕ → Line
  no_line : Line
  stuck : Line

abbrev pub is_comment : List ℕ → Bool
is_comment [] = false
is_comment (c ∷ l) = c == b'#'

abbrev pub is_empty : List ℕ → Bool
is_empty [] = true
is_empty (c ∷ l) = false

-- a text without its last character, and that character
abbrev pub last_of : ℕ → List ℕ → ℕ
last_of d [] = d
last_of d (c ∷ s) = last_of c s

abbrev pub without_last : List ℕ → List ℕ
without_last [] = []
without_last (c ∷ []) = []
without_last (c ∷ d ∷ s) = c ∷ without_last (d ∷ s)

-- A line without its newline, behind the lines `acc` that were continued; `again` is the next round,
-- with the room that is left.
unfoldable pub continued : (ℕ → List ℕ → List ℕ → Line) → ℕ → List ℕ → List ℕ → List ℕ → Line
continued again llen acc body rest =
    let acc' = acc ++ (without_last body ++ (b'\n' ∷ [])) in
    if is_empty body
    then got acc rest
    else if not (last_of 0 body == b'\\')
    then got (acc ++ body) rest
    else if leb llen (length body)
    then got acc' rest
    else again (llen - length body) acc' rest

-- what a round does with what `fgets` gave
unfoldable pub on_line : (ℕ → List ℕ → List ℕ → Line) → ℕ → List ℕ → Option (List ℕ × List ℕ) → Line
unfolding continued
on_line again llen acc none = no_line
on_line again llen acc (some (line, rest)) =
    if is_comment line
    then again llen acc rest
    else if is_empty line
    then again llen acc rest
    else if not (last_of 0 line == b'\n')
    then no_line
    else continued again llen acc (without_last line) rest

-- The rounds, on fuel. Each takes a character at least, while there is room for two.
unfoldable pub getline_rounds : ℕ → ℕ → List ℕ → List ℕ → Line
unfolding on_line fgets
getline_rounds zero llen acc file = stuck
getline_rounds (suc n) llen acc file = on_line (getline_rounds n) llen acc (fgets llen file)

unfoldable pub getline_ndmpd : List ℕ → ℕ → Line
unfolding getline_rounds
getline_ndmpd file llen = getline_rounds (suc (length file)) llen [] file

-- `getrecord` gives a record and the rest of the file, -1, or does not end.
pub data Record : Type 0 where
  record_of : DumpDate → List ℕ → Record
  no_record : Record
  endless : Record

-- the name, cut to the size of `dd_name`
module _ (mktime : Tm → ℕ) (junk : List ℕ) (bufsiz path_name : ℕ) where
  -- With memory that was cleared; what fails leaves the fields that were not set.
  unfoldable pub dated : List ℕ → ℕ → Option ℕ → DumpDate
  dated nm level none = record { dd_name = []; dd_level = level; dd_ddate = 0 }
  dated nm level (some t) = record {
    dd_name = take (path_name - 1) nm;
    dd_level = level;
    dd_ddate = t;
  }

  -- `none` stands for a read behind the line, when it ends with the level.
  -- The level is kept in a `char`, and one that is negative there is refused.
  unfoldable pub makedumpdate : List ℕ → Option DumpDate
  unfolding dated
  makedumpdate line =
      let (nm, r) = get_ddname line in
      elim (get_ddlevel r) [
        | none ↦ none
        | some (level, s) ↦
            if ltb (level % 256) 128
            then some (dated nm (level % 256) (unctime mktime junk (get_ddate s)))
            else none
      ]

  unfoldable pub read_record : List ℕ → List ℕ → Record
  unfolding makedumpdate
  read_record line rest = elim (makedumpdate line) [ none ↦ endless | some d ↦ record_of d rest ]

  unfoldable pub on_getline : (List ℕ → Record) → Line → Record
  unfolding read_record
  on_getline again (got [] rest) = again rest
  on_getline again (got (c ∷ line) rest) = read_record (c ∷ line) rest
  on_getline again no_line = no_record
  on_getline again stuck = endless

  unfoldable pub getrecord : ℕ → List ℕ → Record
  unfolding on_getline getline_ndmpd
  getrecord zero file = endless
  getrecord (suc n) file = on_getline (getrecord n) (getline_ndmpd file bufsiz)

  unfoldable pub on_record : (List ℕ → Option (List DumpDate)) → Record → Option (List DumpDate)
  on_record again (record_of d rest) = elim (again rest) [ none ↦ none | some ds ↦ some (d ∷ ds) ]
  on_record again no_record = some []
  on_record again endless = none

  -- the loop of `readdumptimes`, with memory
  unfoldable pub read_rounds : ℕ → List ℕ → Option (List DumpDate)
  unfolding on_record getrecord
  read_rounds zero file = none
  read_rounds (suc n) file = on_record (read_rounds n) (getrecord (suc (length file)) file)

  -- The records of a file. `none` stands for a loop without end or a read outside the line; each
  -- round takes a character at least.
  unfoldable pub readdumptimes : List ℕ → Option (List DumpDate)
  unfolding read_rounds
  readdumptimes file = read_rounds (suc (length file)) file
