-- ===== src/FileHistory/Order.antt =====
-- src/ndmpd_fhistory.c: a node is not sent before its directory entry.
use ndmpd.Common.{if-cases, ℕ, ◌≡◌, Bool, true, false, List, [], ◌==◌, none, some, length}
use ndmpd.FileHistory.{
  Stat, History, Result, success, failure, overrun, ndmpd_file_history_init,
  ndmpd_api_file_history_file_v3, ndmpd_api_file_history_dir_v3, left_by, flush_dirs,
  ndmpd_api_file_history_node_v3, flush_all, ndmpd_file_history_cleanup_v3,
}
use ndmpd.FileHistory.Cleanup.{flushed_dirs}
use ndmpd.FileHistory.Streams.{all_dirs}
use ndmpd.FileHistory.Known.{Known, NodesFollowDirs}
use ndmpd.FileHistory.Sending.{
  Ordered, OrderedResult, send_files-Ordered, send_dirs-Ordered, send_nodes-Ordered, file-Ordered,
  dir-Ordered, flush_dirs-Ordered, node-Ordered,
}

-- the history that a call left when it returned
abbrev pub Returns : Result → History → Type 0
Returns (success k) h = h ≡ k
Returns (failure k) h = h ≡ k
Returns overrun h = ⊥

-- The histories that calls lead to. A node is added after a directory entry for it, as the comment of
-- `ndmpd_api_file_history_node_v3` demands, and the directories that are sent with nodes can be sent.
pub data Reachable : History → Type 0 where
  init : Reachable (ndmpd_file_history_init [])
  add_file :
      {h k : History} (sends memory : Bool) (name : List ℕ) (st : Stat) (fh_info : ℕ)
      → Reachable h
      → Returns (ndmpd_api_file_history_file_v3 sends memory (some (name, st)) fh_info h) k
      → Reachable k
  add_dir :
      {h k : History} (sends memory : Bool) (name : List ℕ) (node parent : ℕ)
      → Reachable h
      → Returns (ndmpd_api_file_history_dir_v3 sends memory (some name) node parent h) k
      → Reachable k
  send_file_entries :
      {h k : History} (sends memory : Bool) (fh_info : ℕ)
      → Reachable h
      → Returns (ndmpd_api_file_history_file_v3 sends memory none fh_info h) k
      → Reachable k
  send_dir_entries :
      {h k : History} (sends memory : Bool) (node parent : ℕ)
      → Reachable h
      → Returns (ndmpd_api_file_history_dir_v3 sends memory none node parent h) k
      → Reachable k
  send_node_entries :
      {h k : History} (sends memory : Bool) (node fh_info : ℕ)
      → Reachable h
      → Returns (ndmpd_api_file_history_node_v3 true sends memory node none fh_info h) k
      → Reachable k
  clean_up :
      {h : History} (send_flag sends_files sends_nodes : Bool)
      → Reachable h
      → Reachable (ndmpd_file_history_cleanup_v3 send_flag sends_files true sends_nodes h)
  add_node :
      {h k : History} (sends memory : Bool) (node : ℕ) (st : Stat) (fh_info : ℕ)
      → Reachable h
      → Known node (all_dirs h)
      → Returns (ndmpd_api_file_history_node_v3 true sends memory node (some st) fh_info h) k
      → Reachable k

file_none-Ordered :
    (sends memory : Bool) (fh_info : ℕ) (h : History)
    → Ordered h
    → OrderedResult (ndmpd_api_file_history_file_v3 sends memory none fh_info h)
unfolding ndmpd_api_file_history_file_v3
file_none-Ordered sends memory fh_info h o =
    if-cases OrderedResult (length h.fh_files == 0) (λ e. o)
      (λ e. if-cases OrderedResult sends (λ s. send_files-Ordered h o) (λ s. o))

dir_none-Ordered :
    (sends memory : Bool) (node parent : ℕ) (h : History)
    → Ordered h
    → OrderedResult (ndmpd_api_file_history_dir_v3 sends memory none node parent h)
unfolding ndmpd_api_file_history_dir_v3
dir_none-Ordered sends memory node parent h o =
    if-cases OrderedResult (length h.fh_dirs == 0) (λ e. o)
      (λ e. if-cases OrderedResult sends (λ s. send_dirs-Ordered h o) (λ s. o))

node_none-Ordered :
    (sends memory : Bool) (node fh_info : ℕ) (h : History)
    → Ordered h
    → OrderedResult (ndmpd_api_file_history_node_v3 true sends memory node none fh_info h)
unfolding ndmpd_api_file_history_node_v3
node_none-Ordered sends memory node fh_info h o =
    let p = flush_dirs-Ordered h o in
    let (s, z, f, n) = flushed_dirs h in
    if-cases OrderedResult (length h.fh_nodes == 0) (λ e. o)
      (λ e. if-cases OrderedResult sends (λ t. send_nodes-Ordered (flush_dirs true h) z p) (λ t. p))

left-Ordered : (h : History) (r : Result) → Ordered h → OrderedResult r → Ordered (left_by h r)
left-Ordered h (success k) o p = p
left-Ordered h (failure k) o p = p
left-Ordered h overrun o p = o

flush_all-Ordered :
    (sends_files sends_nodes : Bool) (h : History)
    → Ordered h
    → Ordered (flush_all sends_files true sends_nodes h)
unfolding flush_all
flush_all-Ordered sends_files sends_nodes h o =
    let a = left_by h (ndmpd_api_file_history_file_v3 sends_files true none 0 h) in
    let p : Ordered a = left-Ordered h _ o (file_none-Ordered sends_files true 0 h o) in
    let q = flush_dirs-Ordered a p in
    left-Ordered (flush_dirs true a) _ q
      (node_none-Ordered sends_nodes true 0 0 (flush_dirs true a) q)

clean_up-Ordered :
    (send_flag sends_files sends_nodes : Bool) (h : History)
    → Ordered h
    → Ordered (ndmpd_file_history_cleanup_v3 send_flag sends_files true sends_nodes h)
unfolding ndmpd_file_history_cleanup_v3 ndmpd_file_history_init
clean_up-Ordered true sends_files sends_nodes h o = record {
  order = (flush_all-Ordered sends_files sends_nodes h o).order;
  known = tt;
}
clean_up-Ordered false sends_files sends_nodes h o = record { order = o.order; known = tt }

returned : (r : Result) (k : History) → Returns r k → OrderedResult r → Ordered k
returned (success l) k e o = rw e o
returned (failure l) k e o = rw e o
returned overrun k e o = absurd e

reachable-Ordered : (h : History) → Reachable h → Ordered h
unfolding ndmpd_file_history_init NodesFollowDirs
reachable-Ordered h init = record { order = tt; known = tt }
reachable-Ordered k (add_file {h = h} sends memory name st fh_info r e) =
    returned (ndmpd_api_file_history_file_v3 sends memory (some (name, st)) fh_info h) k e
      (file-Ordered sends memory name st fh_info h (reachable-Ordered h r))
reachable-Ordered k (add_dir {h = h} sends memory name node parent r e) =
    returned (ndmpd_api_file_history_dir_v3 sends memory (some name) node parent h) k e
      (dir-Ordered sends memory name node parent h (reachable-Ordered h r))
reachable-Ordered k (send_file_entries {h = h} sends memory fh_info r e) =
    returned (ndmpd_api_file_history_file_v3 sends memory none fh_info h) k e
      (file_none-Ordered sends memory fh_info h (reachable-Ordered h r))
reachable-Ordered k (send_dir_entries {h = h} sends memory node parent r e) =
    returned (ndmpd_api_file_history_dir_v3 sends memory none node parent h) k e
      (dir_none-Ordered sends memory node parent h (reachable-Ordered h r))
reachable-Ordered k (send_node_entries {h = h} sends memory node fh_info r e) =
    returned (ndmpd_api_file_history_node_v3 true sends memory node none fh_info h) k e
      (node_none-Ordered sends memory node fh_info h (reachable-Ordered h r))
reachable-Ordered k (clean_up {h = h} send_flag sends_files sends_nodes r) =
    clean_up-Ordered send_flag sends_files sends_nodes h (reachable-Ordered h r)
reachable-Ordered k (add_node {h = h} sends memory node st fh_info r known e) =
    returned (ndmpd_api_file_history_node_v3 true sends memory node (some st) fh_info h) k e
      (node-Ordered sends memory node st fh_info h known (reachable-Ordered h r))

-- In the messages of a history that calls led to, those with NULL and the clean-up included, every node
-- has a directory entry in an earlier message, when nodes are added after their directory entries and the directories that are sent with
-- nodes can be sent.
pub nodes_follow_dirs : (h : History) → Reachable h → NodesFollowDirs [] h.sent
nodes_follow_dirs h r = (reachable-Ordered h r).order
