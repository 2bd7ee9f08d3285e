-- ===== src/FileHistory/Callbacks.antt =====
-- src/ndmpd_fhistory.c: what the callbacks for directories and nodes of the backup add.
use ndmpd.Common.{
  ℕ, suc, arith, refl, ◌+◌, ◌-◌, ◌<◌, ◌≡◌, sym, ap, ◌∙◌, Bool, false, ◌&&◌, List, [], ◌∷◌, ◌++◌,
  map, ◌==◌, if◌then◌else◌, some, length, take, All, append_assoc, append-nil,
}
use ndmpd.Common.Bytes.{codes}
use ndmpd.DumpDates.Dates.{same}
use ndmpd.FileHistory.{
  Stat, ndmpd_api_file_history_node_v3, DirEntry, History, Result, success, failure, overrun,
  path_namebuf_size, dir_namebuf_size, ndmpd_api_file_history_dir_v3,
}
use ndmpd.FileHistory.Streams.{all_files, all_dirs, all_nodes, IsBounded}
use ndmpd.FileHistory.Buffered.{Leaves}
use ndmpd.FileHistory.DirsAndNodes.{file_history_dir}

abbrev pub root_inode : ℕ
root_inode = 2

abbrev pub rootfs_dot_or_dotdot : List ℕ → Bool
rootfs_dot_or_dotdot [] = false
rootfs_dot_or_dotdot (c ∷ []) = c == b'.'
rootfs_dot_or_dotdot (c ∷ d ∷ []) = c == b'.' && d == b'.'
rootfs_dot_or_dotdot (c ∷ d ∷ e ∷ s) = false

-- what `readdir` gives: a name and an inode
pub record Dirent : Type 0 where
  pub d_name : List ℕ
  pub d_fileno : ℕ

-- the directory's own number: the directory of the backup is the root
abbrev pub own_inode : ℕ → ℕ → ℕ
own_inode bkdirino st_ino = if st_ino == bkdirino then root_inode else st_ino

unfoldable pub entry_inode : ℕ → ℕ → Dirent → ℕ
unfolding same
entry_inode bkdirino pino e =
    if pino == root_inode
    then if rootfs_dot_or_dotdot e.d_name then root_inode else e.d_fileno
    else if e.d_fileno == bkdirino && same e.d_name (codes "..")
    then root_inode
    else e.d_fileno

-- The loop over the directory, which ends at the first entry that cannot be added. `sends` and
-- `memory` are the answers by the number of the entry.
module _ (sends memory : ℕ → Bool) (bkdirino pino : ℕ) where
  unfoldable pub fhdir_rounds : ℕ → List Dirent → History → Result
  unfolding ndmpd_api_file_history_dir_v3 entry_inode
  fhdir_rounds i [] h = success h
  fhdir_rounds i (e ∷ es) h =
      elim (ndmpd_api_file_history_dir_v3 (sends i) (memory i) (some e.d_name)
        (entry_inode bkdirino pino e) pino h) [
          | success k ↦ fhdir_rounds (suc i) es k
          | failure k ↦ failure k
          | overrun ↦ overrun
        ]

-- `ndmpd_fhdir_v3_cb` with the file history on, for a directory that can be opened
unfoldable pub ndmpd_fhdir_v3_cb : (ℕ → Bool) → (ℕ → Bool) → ℕ → ℕ → List Dirent → History → Result
unfolding fhdir_rounds
ndmpd_fhdir_v3_cb sends memory bkdirino st_ino es h =
    fhdir_rounds sends memory bkdirino (own_inode bkdirino st_ino) 0 es h

-- the entry that is sent for one of the directory
abbrev pub sent_entry : ℕ → ℕ → Dirent → DirEntry
sent_entry bkdirino pino e = record {
  dir_name = take (path_namebuf_size - 1) e.d_name;
  dir_node = entry_inode bkdirino pino e;
  dir_parent = pino;
}

abbrev pub ShortNames : List Dirent → Type 0
ShortNames es = All (λ e. length e.d_name < dir_namebuf_size) es

module _ (sends memory : ℕ → Bool) (bkdirino pino : ℕ) where
  -- the call for the entry with a number
  abbrev pub added_at : ℕ → Dirent → History → Result
  added_at i e h =
      ndmpd_api_file_history_dir_v3 (sends i) (memory i) (some e.d_name)
        (entry_inode bkdirino pino e) pino h

  -- After success, all entries were added. After failure, those before some entry were, from the
  -- history that they led to the call for that entry failed, and what it left is the result.
  abbrev pub Added : ℕ → List Dirent → History → Result → Type 0
  Added i es h (success k) = all_dirs k ≡ all_dirs h ++ map (sent_entry bkdirino pino) es
  Added i es h (failure k) =
      (done rest : List Dirent) × (e : Dirent) × (j : History) × (es ≡ done ++ (e ∷ rest))
      × (fhdir_rounds sends memory bkdirino pino i done h ≡ success j)
      × (added_at (i + length done) e j ≡ failure k)
      × (all_dirs k ≡ all_dirs h ++ map (sent_entry bkdirino pino) done)
  Added i es h overrun = ⊥

  -- the rest of the rounds, behind an entry that was added
  Added-later :
      (i : ℕ) (e : Dirent) (es : List Dirent) (h j : History) (r : Result)
      → added_at i e h ≡ success j
      → all_dirs j ≡ all_dirs h ++ (sent_entry bkdirino pino e ∷ [])
      → Added (suc i) es j r
      → Added i (e ∷ es) h r
  unfolding fhdir_rounds
  Added-later i e es h j (success k) here d a =
      a
      ∙ ap (λ r. r ++ map (sent_entry bkdirino pino) es) d
      ∙ append_assoc (all_dirs h) (sent_entry bkdirino pino e ∷ []) _
  Added-later i e es h j (failure k) here d (done, rest, x, l, split, before, fails, dirs) = (
    e ∷ done,
    rest,
    x,
    l,
    ap (λ (r : List Dirent). e ∷ r) split,
    rw (here, fhdir_rounds) before,
    ap (λ (n : ℕ). added_at n x l) (omega arith) ∙ fails,
    dirs
        ∙ ap (λ r. r ++ map (sent_entry bkdirino pino) done) d
        ∙ append_assoc (all_dirs h) (sent_entry bkdirino pino e ∷ []) _,
  )
  Added-later i e es h j overrun here d a = a

  fhdir_rounds-Added :
      (i : ℕ) (es : List Dirent) (h : History)
      → IsBounded h
      → ShortNames es
      → Added i es h (fhdir_rounds sends memory bkdirino pino i es h)
  unfolding fhdir_rounds
  fhdir_rounds-Added i [] h b s = sym (append-nil (all_dirs h))
  fhdir_rounds-Added i (e ∷ es) h b (n, s) =
      go (added_at i e h) refl
        (file_history_dir (sends i) (memory i) e.d_name (entry_inode bkdirino pino e) pino h b n)
        (λ k c. fhdir_rounds-Added (suc i) es k c s)
    where
      go :
          (r : Result)
          → added_at i e h ≡ r
          → Leaves (all_files h) (all_dirs h ++ (sent_entry bkdirino pino e ∷ [])) (all_nodes h) h r
          → ((k : History)
              → IsBounded k
              → Added (suc i) es k (fhdir_rounds sends memory bkdirino pino (suc i) es k))
          → Added i (e ∷ es) h (elim r [
            | success k ↦ fhdir_rounds sends memory bkdirino pino (suc i) es k
            | failure k ↦ failure k
            | overrun ↦ overrun
          ])
      go (success k) q (c, f, d, m) later = Added-later i e es h k _ q d (later k c)
      go (failure k) q (c, f, d, m) later = (
        [],
        es,
        e,
        h,
        refl,
        refl,
        ap (λ (n : ℕ). added_at n e h) (omega arith) ∙ q,
        d ∙ sym (append-nil (all_dirs h)),
      )
      go overrun q l later = absurd l

-- A directory adds an entry for each of its own, in order and behind those added before, with its
-- number as their parent, where the directory of the backup has the number of the root. When the call
-- for one of them fails, just those before it were added, and the history is what that call left.
-- Names are shorter than the name buffer, and the buffers are within their sizes at the start.
pub fhdir_lem :
    (sends memory : ℕ → Bool) (bkdirino st_ino : ℕ) (es : List Dirent) (h : History)
    → IsBounded h
    → ShortNames es
    → Added sends memory bkdirino
        (own_inode bkdirino st_ino)
        0
        es
        h
        (ndmpd_fhdir_v3_cb sends memory bkdirino st_ino es h)
unfolding ndmpd_fhdir_v3_cb
fhdir_lem sends memory bkdirino st_ino es h b s =
    fhdir_rounds-Added sends memory bkdirino (own_inode bkdirino st_ino) 0 es h b s

-- the flags NLPF_FH and NLPF_DIRECT of a job
pub record Flags : Type 0 where
  pub nlpf_fh : Bool
  pub nlpf_direct : Bool

abbrev pub offset_of : Flags → ℕ → ℕ
offset_of f off = if f.nlpf_direct then off else 0

-- `ndmpd_fhnode_v3_cb`, for a job whose parameters are set
unfoldable pub ndmpd_fhnode_v3_cb : Flags → Bool → Bool → Bool → ℕ → Stat → ℕ → History → Result
unfolding ndmpd_api_file_history_node_v3
ndmpd_fhnode_v3_cb flags sends_dirs sends memory bkdirino st off h =
    if flags.nlpf_fh
    then ndmpd_api_file_history_node_v3 sends_dirs sends memory (own_inode bkdirino st.st_ino)
        (some st) (offset_of flags off) h
    else success h
