-- ===== src/FileHistory.antt =====
-- src/ndmpd_fhistory.c: the entries of the file history, which are kept in buffers and sent to the
-- client when these are full. The names that an entry points to in a name buffer stand in the entry.
-- The answers of the calls are arguments: whether `ndmp_send_request_lock` succeeds, and whether the
-- buffers that are missing can be allocated.
pub mod Callbacks
pub mod Directories
pub mod Streams
pub mod Cleanup
pub mod DirsAndNodes
pub mod Buffered
pub mod Known
pub mod Sending
pub mod Order
mod Tests
use ndmpd.Common.{
  ℕ, zero, suc, ◌+◌, ◌-◌, ◌*◌, ◌/◌, ◌%◌, Bool, true, false, ◌&&◌, ◌||◌, not, List, [], ◌∷◌, ◌++◌,
  leb, ltb, ◌==◌, if◌then◌else◌, Option, none, some, length, take,
}

-- the fields of `struct stat` that are used
pub record Stat : Type 0 where
  pub st_ino : ℕ
  pub st_mode : ℕ
  pub st_mtime : ℕ
  pub st_atime : ℕ
  pub st_ctime : ℕ
  pub st_uid : ℕ
  pub st_gid : ℕ
  pub st_size : ℕ
  pub st_nlink : ℕ

-- `ndmp_file_v3`, with its name and status; the type of a file, which depends on the system's constants
-- for modes, is left out
pub record FileEntry : Type 0 where
  pub file_name : List ℕ
  pub file_node : ℕ
  pub file_fh_info : ℕ
  pub file_fattr : ℕ
  pub file_status : Stat

pub record DirEntry : Type 0 where
  pub dir_name : List ℕ
  pub dir_node : ℕ
  pub dir_parent : ℕ

pub record NodeEntry : Type 0 where
  pub node_node : ℕ
  pub node_fh_info : ℕ
  pub node_fattr : ℕ
  pub node_status : Stat

pub data Message : Type 0 where
  fh_add_file : List FileEntry → Message
  fh_add_dir : List DirEntry → Message
  fh_add_node : List NodeEntry → Message

-- `ndmpd_session_file_history_v3_t`. The indices `fh_file_index`, `fh_dir_index` and `fh_node_index`
-- are the lengths of the lists; `sent` are the messages sent.
pub record History : Type 0 where
  pub fh_files : List FileEntry
  pub fh_dirs : List DirEntry
  pub fh_nodes : List NodeEntry
  pub fh_file_name_buf_index : ℕ
  pub fh_dir_name_buf_index : ℕ
  pub sent : List Message

-- a call returns 0, returns -1, or writes behind a name buffer
pub data Result : Type 0 where
  success : History → Result
  failure : History → Result
  overrun : Result

abbrev pub n_path_entries : ℕ
n_path_entries = 1000

abbrev pub n_file_entries : ℕ
n_file_entries = 1000

abbrev pub n_dir_entries : ℕ
n_dir_entries = 1000

abbrev pub n_node_entries : ℕ
n_node_entries = 1000

abbrev pub path_namebuf_size : ℕ
path_namebuf_size = 32000

abbrev pub dir_namebuf_size : ℕ
dir_namebuf_size = 16000

unfoldable pub ndmpd_file_history_init : List Message → History
ndmpd_file_history_init sent = record {
  fh_files = [];
  fh_dirs = [];
  fh_nodes = [];
  fh_file_name_buf_index = 0;
  fh_dir_name_buf_index = 0;
  sent = sent;
}

-- ## sending

abbrev pub send_files : History → History
send_files h = record h {
  fh_files = [];
  fh_file_name_buf_index = 0;
  sent = h.sent ++ (fh_add_file h.fh_files ∷ []);
}

abbrev pub send_dirs : History → History
send_dirs h = record h {
  fh_dirs = [];
  fh_dir_name_buf_index = 0;
  sent = h.sent ++ (fh_add_dir h.fh_dirs ∷ []);
}

abbrev pub send_nodes : History → History
send_nodes h = record h { fh_nodes = []; sent = h.sent ++ (fh_add_node h.fh_nodes ∷ []) }

-- ## files

-- whether the buffers have no space for a name
abbrev pub files_full : List ℕ → History → Bool
files_full name h =
    length h.fh_files == n_file_entries
    || ltb path_namebuf_size (h.fh_file_name_buf_index + length name + 1)

abbrev pub file_entry : List ℕ → Stat → ℕ → FileEntry
file_entry name st fh_info = record {
  file_name = name;
  file_node = st.st_ino;
  file_fh_info = fh_info;
  file_fattr = st.st_mode % 4096;
  file_status = st;
}

-- `strlcpy` writes at most `path_namebuf_size` bytes, from the index on.
unfoldable pub put_file : Bool → List ℕ → Stat → ℕ → History → Result
put_file memory name st fh_info h =
    let stored = take (path_namebuf_size - 1) name in
    if not memory
    then failure h
    else if ltb path_namebuf_size (h.fh_file_name_buf_index + length stored + 1)
    then overrun
    else success (record h {
      fh_files = h.fh_files ++ (file_entry stored st fh_info ∷ []);
      fh_file_name_buf_index = h.fh_file_name_buf_index + length name + 1;
    })

-- `none` is the name NULL, which has what is buffered sent
unfoldable pub ndmpd_api_file_history_file_v3 :
    Bool → Bool → Option (List ℕ × Stat) → ℕ → History → Result
unfolding put_file
ndmpd_api_file_history_file_v3 sends memory none fh_info h =
    if length h.fh_files == 0
    then success h
    else if sends
    then success (send_files h)
    else failure h
ndmpd_api_file_history_file_v3 sends memory (some (name, st)) fh_info h =
    if files_full name h
    then if sends then put_file memory name st fh_info (send_files h) else failure h
    else put_file memory name st fh_info h

-- ## directories

abbrev pub dirs_full : List ℕ → History → Bool
dirs_full name h =
    length h.fh_dirs == n_dir_entries
    || ltb dir_namebuf_size (h.fh_dir_name_buf_index + length name + 1)

-- The index advances by `path_namebuf_size`.
unfoldable pub put_dir : Bool → List ℕ → ℕ → ℕ → History → Result
put_dir memory name node parent h =
    let stored = take (path_namebuf_size - 1) name in
    if not memory
    then failure h
    else if ltb dir_namebuf_size (h.fh_dir_name_buf_index + length stored + 1)
    then overrun
    else success (record h {
      fh_dirs =
          h.fh_dirs ++ (record { dir_name = stored; dir_node = node; dir_parent = parent } ∷ []);
      fh_dir_name_buf_index = h.fh_dir_name_buf_index + path_namebuf_size;
    })

unfoldable pub ndmpd_api_file_history_dir_v3 :
    Bool → Bool → Option (List ℕ) → ℕ → ℕ → History → Result
unfolding put_dir
ndmpd_api_file_history_dir_v3 sends memory none node parent h =
    if length h.fh_dirs == 0 then success h else if sends then success (send_dirs h) else failure h
ndmpd_api_file_history_dir_v3 sends memory (some name) node parent h =
    if dirs_full name h
    then if sends then put_dir memory name node parent (send_dirs h) else failure h
    else put_dir memory name node parent h

-- ## nodes

abbrev pub node_entry : ℕ → Stat → ℕ → NodeEntry
node_entry node st fh_info = record {
  node_node = node;
  node_fh_info = fh_info;
  node_fattr = st.st_mode;
  node_status = st;
}

abbrev pub put_node : Bool → ℕ → Stat → ℕ → History → Result
put_node memory node st fh_info h =
    if memory
    then success (record h { fh_nodes = h.fh_nodes ++ (node_entry node st fh_info ∷ []) })
    else failure h

-- the history that a call leaves, whatever it returned
abbrev pub left_by : History → Result → History
left_by h (success k) = k
left_by h (failure k) = k
left_by h overrun = h

-- the directories are sent before the nodes, and what that returns is not looked at
unfoldable pub flush_dirs : Bool → History → History
unfolding ndmpd_api_file_history_dir_v3
flush_dirs sends h = left_by h (ndmpd_api_file_history_dir_v3 sends true none 0 0 h)

-- `sends_dirs` and `sends` are the answers for the directories and the nodes
unfoldable pub ndmpd_api_file_history_node_v3 :
    Bool → Bool → Bool → ℕ → Option Stat → ℕ → History → Result
unfolding flush_dirs
ndmpd_api_file_history_node_v3 sends_dirs sends memory node none fh_info h =
    if length h.fh_nodes == 0
    then success h
    else if sends
    then success (send_nodes (flush_dirs sends_dirs h))
    else failure (flush_dirs sends_dirs h)
ndmpd_api_file_history_node_v3 sends_dirs sends memory node (some st) fh_info h =
    if length h.fh_nodes == n_node_entries
    then if sends
      then put_node memory node st fh_info (send_nodes (flush_dirs sends_dirs h))
      else failure (flush_dirs sends_dirs h)
    else put_node memory node st fh_info h

-- the messages that `ndmpd_file_history_cleanup_v3` sends when its flag is set
unfoldable pub flush_all : Bool → Bool → Bool → History → History
unfolding ndmpd_api_file_history_file_v3 ndmpd_api_file_history_node_v3 flush_dirs
flush_all sends_files sends_dirs sends_nodes h =
    let a = left_by h (ndmpd_api_file_history_file_v3 sends_files true none 0 h) in
    let b = flush_dirs sends_dirs a in
    left_by b (ndmpd_api_file_history_node_v3 sends_dirs sends_nodes true 0 none 0 b)

unfoldable pub ndmpd_file_history_cleanup_v3 : Bool → Bool → Bool → Bool → History → History
unfolding flush_all ndmpd_file_history_init
ndmpd_file_history_cleanup_v3 send_flag sends_files sends_dirs sends_nodes h =
    ndmpd_file_history_init
      (if send_flag then (flush_all sends_files sends_dirs sends_nodes h).sent else h.sent)
