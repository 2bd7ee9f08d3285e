-- ===== src/FileHistory/Streams.antt =====
-- src/ndmpd_fhistory.c: the entries added to a history, in its messages and in its buffers.
use ndmpd.Common.{◌≤◌, ◌≡◌, refl, sym, ap, ◌∙◌, List, [], ◌∷◌, ◌++◌, length, append_assoc}
use ndmpd.FileHistory.{
  FileEntry, DirEntry, NodeEntry, Message, fh_add_file, fh_add_dir, fh_add_node, History,
  n_file_entries, n_dir_entries, n_node_entries,
}

-- the entries of the messages of each kind, in their order
unfoldable pub files_of : List Message → List FileEntry
files_of [] = []
files_of (fh_add_file e ∷ m) = e ++ files_of m
files_of (fh_add_dir e ∷ m) = files_of m
files_of (fh_add_node e ∷ m) = files_of m

unfoldable pub dirs_of : List Message → List DirEntry
dirs_of [] = []
dirs_of (fh_add_file e ∷ m) = dirs_of m
dirs_of (fh_add_dir e ∷ m) = e ++ dirs_of m
dirs_of (fh_add_node e ∷ m) = dirs_of m

unfoldable pub nodes_of : List Message → List NodeEntry
nodes_of [] = []
nodes_of (fh_add_file e ∷ m) = nodes_of m
nodes_of (fh_add_dir e ∷ m) = nodes_of m
nodes_of (fh_add_node e ∷ m) = e ++ nodes_of m

pub files_of-append : (m n : List Message) → files_of (m ++ n) ≡ files_of m ++ files_of n
unfolding files_of
files_of-append [] n = refl
files_of-append (fh_add_file e ∷ m) n =
    ap (λ r. e ++ r) (files_of-append m n) ∙ sym (append_assoc e (files_of m) (files_of n))
files_of-append (fh_add_dir e ∷ m) n = files_of-append m n
files_of-append (fh_add_node e ∷ m) n = files_of-append m n

pub dirs_of-append : (m n : List Message) → dirs_of (m ++ n) ≡ dirs_of m ++ dirs_of n
unfolding dirs_of
dirs_of-append [] n = refl
dirs_of-append (fh_add_file e ∷ m) n = dirs_of-append m n
dirs_of-append (fh_add_dir e ∷ m) n =
    ap (λ r. e ++ r) (dirs_of-append m n) ∙ sym (append_assoc e (dirs_of m) (dirs_of n))
dirs_of-append (fh_add_node e ∷ m) n = dirs_of-append m n

pub nodes_of-append : (m n : List Message) → nodes_of (m ++ n) ≡ nodes_of m ++ nodes_of n
unfolding nodes_of
nodes_of-append [] n = refl
nodes_of-append (fh_add_file e ∷ m) n = nodes_of-append m n
nodes_of-append (fh_add_dir e ∷ m) n = nodes_of-append m n
nodes_of-append (fh_add_node e ∷ m) n =
    ap (λ r. e ++ r) (nodes_of-append m n) ∙ sym (append_assoc e (nodes_of m) (nodes_of n))

-- all entries added so far: those sent, and those in the buffers
abbrev pub all_files : History → List FileEntry
all_files h = files_of h.sent ++ h.fh_files

abbrev pub all_dirs : History → List DirEntry
all_dirs h = dirs_of h.sent ++ h.fh_dirs

abbrev pub all_nodes : History → List NodeEntry
all_nodes h = nodes_of h.sent ++ h.fh_nodes

-- the buffers hold what their sizes allow
pub record IsBounded (h : History) : Type 0 where
  pub files_le : length h.fh_files ≤ n_file_entries
  pub dirs_le : length h.fh_dirs ≤ n_dir_entries
  pub nodes_le : length h.fh_nodes ≤ n_node_entries
