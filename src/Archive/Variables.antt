-- ===== src/Archive/Variables.antt =====
-- tlm/tlm_restore_writer.c: what `tar_getdir` keeps from round to round, and the texts and numbers it
-- takes from a record. What it does with an object, once it has the name, is an action.
use ndmpd.Common.{
  ℕ, ◌+◌, ◌-◌, ◌*◌, Bool, ◌&&◌, List, [], ◌∷◌, ◌++◌, Option, none, some, leb, ◌==◌, if◌then◌else◌,
  take, drop,
}
use ndmpd.Base64.{Outcome, done, null, overflow, overread, ◌>>=◌}
use ndmpd.TarHeader.{TlmTarHdr}
use ndmpd.Archive.{text_at, number_at, round_up}

-- the attributes in `acls`
pub record Attr : Type 0 where
  pub mode : ℕ
  pub size : ℕ
  pub uid : ℕ
  pub gid : ℕ
  pub mtime : ℕ
  pub uname : List ℕ
  pub gname : List ℕ

-- `restore_file`, with the data that is read, `create_hard_link`, and so on
pub data Action : Type 0 where
  restore_file : (name : List ℕ) → Attr → (content : List ℕ) → (inode : Option ℕ) → Action
  create_hard_link : (name : List ℕ) → (inode : ℕ) → Action
  create_sym_link : (name link : List ℕ) → Attr → Action
  create_directory : (name : List ℕ) → Attr → Action
  create_fifo : (name : List ℕ) → Attr → Action

-- The variables of the loop. `nm_end` bytes of `longname` were read; `links` are the inodes in the
-- queue of hard links.
pub record Vars : Type 0 where
  pub longname : List ℕ
  pub nm_end : ℕ
  pub longlink : List ℕ
  pub lnk_end : ℕ
  pub hugename : List ℕ
  pub huge_size : ℕ
  pub attr : Attr
  pub file_size : ℕ
  pub size_left : ℕ
  pub last_action : ℕ
  pub multi_volume : Bool
  pub links : List ℕ

-- the bytes of a record as the checks see them
abbrev pub as_header : List ℕ → TlmTarHdr
as_header b = record { before = take 148 b; th_chksum = take 8 (drop 148 b); behind = drop 156 b }

-- what a round looks at: the flag, the texts, and the place of the inode
pub record View : Type 0 where
  pub flag : ℕ
  pub name : Outcome (List ℕ)
  pub linkname : Outcome (List ℕ)
  pub inode : Outcome ℕ

abbrev head_or : ℕ → List ℕ → ℕ
head_or d [] = d
head_or d (c ∷ s) = c

unfoldable pub view_of : List ℕ → View
unfolding text_at number_at
view_of b = record {
  flag = head_or 0 (drop 156 b);
  name = text_at b;
  linkname = text_at (drop 157 b);
  inode = number_at (drop 329 b);
}

-- the record that is made up after a change of the volume
unfoldable pub fake_view : ℕ → View
fake_view last_action = record {
  flag = last_action;
  name = done [];
  linkname = done [];
  inode = done 0;
}

unfoldable pub attr_of : List ℕ → Outcome Attr
unfolding number_at text_at
attr_of b = number_at (drop 100 b) >>= λ (m : ℕ). number_at (drop 108 b) >>= λ (u : ℕ).
    number_at (drop 116 b) >>= λ (g : ℕ). number_at (drop 124 b) >>= λ (s : ℕ).
    number_at (drop 136 b) >>= λ (t : ℕ). text_at (drop 265 b) >>= λ (un : List ℕ).
    text_at (drop 297 b) >>= λ (gn : List ℕ). done (record {
      mode = m;
      size = s;
      uid = u;
      gid = g;
      mtime = t;
      uname = take 31 un;
      gname = take 31 gn;
    })

-- `input_mem`: the bytes that are read, and the rest of the archive behind their last record
unfoldable pub input_mem : ℕ → List ℕ → List ℕ × List ℕ
input_mem len archive = (take len archive, drop (round_up len) archive)

abbrev pub or_else : List ℕ → Outcome (List ℕ) → Outcome (List ℕ)
or_else [] t = t
or_else (c ∷ s) t = done (c ∷ s)

-- the text of the first bytes of an array, with a NUL behind them
unfoldable pub c_text : List ℕ → List ℕ
c_text [] = []
c_text (c ∷ s) = if c == 0 then [] else c ∷ c_text s

abbrev pub clear_names : Vars → Vars
clear_names v = record v { longname = []; nm_end = 0; longlink = []; lnk_end = 0 }

-- What a round leads to: the variables, the rest of the archive and the actions
abbrev pub Round : Type 0
Round = Outcome (Vars × List ℕ × List Action)

abbrev pub blanks_off : List ℕ → List ℕ
blanks_off [] = []
blanks_off (c ∷ s) = if c == b' ' then blanks_off s else c ∷ s

-- `atoll`, with 0 for a negative number
unfoldable pub digits : ℕ → List ℕ → ℕ
digits n [] = n
digits n (c ∷ s) =
    let rest = digits (n * 10 + (c - b'0')) s in if leb b'0' c && leb c b'9' then rest else n

-- `parse` with a blank: the text before the first blank but at the start, and what is behind the
-- blanks
unfoldable pub until_blank : List ℕ → List ℕ × List ℕ
until_blank [] = ([], [])
until_blank (c ∷ s) =
    let (a, b) = until_blank s in if c == b' ' then ([], blanks_off s) else (c ∷ a, b)

unfoldable pub parse : List ℕ → List ℕ × List ℕ
unfolding until_blank
parse [] = ([], [])
parse (c ∷ s) = let (a, b) = until_blank s in (c ∷ a, b)

-- the slash in front of a name without one
unfoldable pub with_slash : List ℕ → List ℕ
with_slash [] = b'/' ∷ []
with_slash (c ∷ s) = if c == b'/' then c ∷ s else b'/' ∷ c ∷ s

abbrev pub no_attr : Attr
no_attr = record { mode = 0; size = 0; uid = 0; gid = 0; mtime = 0; uname = []; gname = [] }

-- the actions in front of later ones
unfoldable pub before_all :
    List Action → Option (Outcome (List Action)) → Option (Outcome (List Action))
before_all acts none = none
before_all acts (some (done more)) = some (done (acts ++ more))
before_all acts (some null) = some null
before_all acts (some overflow) = some overflow
before_all acts (some overread) = some overread

-- what follows a round
unfoldable pub after_round :
    (Vars → List ℕ → Option (Outcome (List Action))) → Round → Option (Outcome (List Action))
after_round again (done (v, rest, acts)) = before_all acts (again v rest)
after_round again null = some null
after_round again overflow = some overflow
after_round again overread = some overread
