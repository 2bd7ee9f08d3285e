-- ===== src/FileHistory/Sending.antt =====
-- src/ndmpd_fhistory.c: the calls that add entries or send them keep nodes behind their directories.
use ndmpd.Common.{
  if-cases, ℕ, ◌+◌, ◌-◌, ◌≡◌, ap, ◌∙◌, Bool, true, not, List, [], ◌∷◌, ◌++◌, ltb, ◌==◌, some,
  length, take, append_assoc, append-nil,
}
use ndmpd.FileHistory.{
  Stat, DirEntry, fh_add_file, fh_add_dir, fh_add_node, History, Result, success, failure, overrun,
  n_node_entries, path_namebuf_size, dir_namebuf_size, send_files, send_dirs, send_nodes,
  files_full, put_file, ndmpd_api_file_history_file_v3, dirs_full, put_dir,
  ndmpd_api_file_history_dir_v3, node_entry, put_node, left_by, flush_dirs,
  ndmpd_api_file_history_node_v3,
}
use ndmpd.FileHistory.Buffered.{send_dirs-Same, send_nodes-Same}
use ndmpd.FileHistory.Cleanup.{flushed_dirs}
use ndmpd.FileHistory.Streams.{dirs_of, dirs_of-append, all_dirs}
use ndmpd.FileHistory.Known.{
  Known, AllKnown, NodesFollowDirs, AllKnown-append, AllKnown-snoc, NodesFollowDirs-append,
}

-- the messages sent are in order, and the directories of the nodes in the buffer are known
pub record Ordered (h : History) : Type 0 where
  pub order : NodesFollowDirs [] h.sent
  pub known : AllKnown h.fh_nodes (all_dirs h)

abbrev pub OrderedResult : Result → Type 0
OrderedResult (success k) = Ordered k
OrderedResult (failure k) = Ordered k
OrderedResult overrun = Unit

pub send_files-Ordered : (h : History) → Ordered h → Ordered (send_files h)
unfolding dirs_of NodesFollowDirs
send_files-Ordered h o =
    let e = dirs_of-append h.sent (fh_add_file h.fh_files ∷ []) ∙ append-nil (dirs_of h.sent) in
    record {
      order = NodesFollowDirs-append [] h.sent (fh_add_file h.fh_files ∷ []) o.order tt;
      known = rw e o.known;
    }

pub send_dirs-Ordered : (h : History) → Ordered h → Ordered (send_dirs h)
unfolding NodesFollowDirs
send_dirs-Ordered h o =
    let (f, d, n) = send_dirs-Same h in
    record {
      order = NodesFollowDirs-append [] h.sent (fh_add_dir h.fh_dirs ∷ []) o.order tt;
      known = rw d o.known;
    }

pub send_nodes-Ordered : (h : History) → h.fh_dirs ≡ [] → Ordered h → Ordered (send_nodes h)
unfolding NodesFollowDirs
send_nodes-Ordered h z o =
    let e : all_dirs h ≡ dirs_of h.sent =
      ap (λ r. dirs_of h.sent ++ r) z ∙ append-nil (dirs_of h.sent) in
    record {
      order =
          NodesFollowDirs-append [] h.sent (fh_add_node h.fh_nodes ∷ []) o.order
            (rw e at o.known, tt);
      known = tt;
    }

put_file-Ordered :
    (memory : Bool) (name : List ℕ) (st : Stat) (fh_info : ℕ) (h : History)
    → Ordered h
    → OrderedResult (put_file memory name st fh_info h)
unfolding put_file
put_file-Ordered memory name st fh_info h o =
    if-cases OrderedResult (not memory) (λ m. o)
      (λ m.
        if-cases OrderedResult
          (ltb path_namebuf_size
            (h.fh_file_name_buf_index + length (take (path_namebuf_size - 1) name) + 1))
          (λ l. tt) (λ l. record { order = o.order; known = o.known }))

put_dir-Ordered :
    (memory : Bool) (name : List ℕ) (node parent : ℕ) (h : History)
    → Ordered h
    → OrderedResult (put_dir memory name node parent h)
unfolding put_dir
put_dir-Ordered memory name node parent h o =
    let e : DirEntry = record {
      dir_name = take (path_namebuf_size - 1) name;
      dir_node = node;
      dir_parent = parent;
    } in
    if-cases OrderedResult (not memory) (λ m. o)
      (λ m.
        if-cases OrderedResult
          (ltb dir_namebuf_size
            (h.fh_dir_name_buf_index + length (take (path_namebuf_size - 1) name) + 1))
          (λ l. tt)
          (λ l. record {
            order = o.order;
            known =
                rw (append_assoc (dirs_of h.sent) h.fh_dirs (e ∷ [])) at
                  (AllKnown-append h.fh_nodes (all_dirs h) (e ∷ []) o.known);
          }))

put_node-Ordered :
    (memory : Bool) (node : ℕ) (st : Stat) (fh_info : ℕ) (h : History)
    → Known node (all_dirs h)
    → Ordered h
    → OrderedResult (put_node memory node st fh_info h)
put_node-Ordered memory node st fh_info h k o =
    if-cases OrderedResult memory
      (λ m. record {
        order = o.order;
        known = AllKnown-snoc h.fh_nodes (node_entry node st fh_info) (all_dirs h) o.known k;
      })
      (λ m. o)

pub file-Ordered :
    (sends memory : Bool) (name : List ℕ) (st : Stat) (fh_info : ℕ) (h : History)
    → Ordered h
    → OrderedResult (ndmpd_api_file_history_file_v3 sends memory (some (name, st)) fh_info h)
unfolding ndmpd_api_file_history_file_v3
file-Ordered sends memory name st fh_info h o =
    if-cases OrderedResult (files_full name h)
      (λ e.
        if-cases OrderedResult sends
          (λ s. put_file-Ordered memory name st fh_info (send_files h) (send_files-Ordered h o))
          (λ s. o))
      (λ e. put_file-Ordered memory name st fh_info h o)

pub dir-Ordered :
    (sends memory : Bool) (name : List ℕ) (node parent : ℕ) (h : History)
    → Ordered h
    → OrderedResult (ndmpd_api_file_history_dir_v3 sends memory (some name) node parent h)
unfolding ndmpd_api_file_history_dir_v3
dir-Ordered sends memory name node parent h o =
    if-cases OrderedResult (dirs_full name h)
      (λ e.
        if-cases OrderedResult sends
          (λ s. put_dir-Ordered memory name node parent (send_dirs h) (send_dirs-Ordered h o))
          (λ s. o))
      (λ e. put_dir-Ordered memory name node parent h o)

pub flush_dirs-Ordered : (h : History) → Ordered h → Ordered (flush_dirs true h)
unfolding flush_dirs ndmpd_api_file_history_dir_v3
flush_dirs-Ordered h o =
    if-cases (λ r. Ordered (left_by h r)) (length h.fh_dirs == 0) (λ e. o)
      (λ e. send_dirs-Ordered h o)

pub node-Ordered :
    (sends memory : Bool) (node : ℕ) (st : Stat) (fh_info : ℕ) (h : History)
    → Known node (all_dirs h)
    → Ordered h
    → OrderedResult (ndmpd_api_file_history_node_v3 true sends memory node (some st) fh_info h)
unfolding ndmpd_api_file_history_node_v3
node-Ordered sends memory node st fh_info h known o =
    let k = flush_dirs true h in
    let (s, z, f, n) = flushed_dirs h in
    let (sf, sd, sn) = s in
    let p = flush_dirs-Ordered h o in
    let q = send_nodes-Ordered k z p in
    let (nf, nd, nn) = send_nodes-Same k in
    if-cases OrderedResult (length h.fh_nodes == n_node_entries)
      (λ e.
        if-cases OrderedResult sends
          (λ t. put_node-Ordered memory node st fh_info (send_nodes k) (rw (nd ∙ sd) known) q)
          (λ t. p))
      (λ e. put_node-Ordered memory node st fh_info h known o)
