-- ===== src/FileHistory/DirsAndNodes.antt =====
-- src/ndmpd_fhistory.c: no directory and no node is lost, repeated or put behind a later one.
use ndmpd.Common.{
  length-take_le, if-cases, ℕ, ◌+◌, ◌-◌, ◌<◌, ◌≤◌, refl, sym, ap, ◌∙◌, Bool, not, List, [], ◌∷◌,
  ◌++◌, ltb, ◌==◌, some, length, take, arith, append_assoc,
}
use ndmpd.FileHistory.{
  Stat, DirEntry, History, n_dir_entries, n_node_entries, path_namebuf_size, dir_namebuf_size,
  send_dirs, send_nodes, dirs_full, put_dir, ndmpd_api_file_history_dir_v3, node_entry, put_node,
  left_by, flush_dirs, ndmpd_api_file_history_node_v3,
}
use ndmpd.FileHistory.Streams.{dirs_of, nodes_of, all_files, all_dirs, all_nodes, IsBounded}
use ndmpd.FileHistory.Buffered.{
  Leaves, Same, send_dirs-Same, send_nodes-Same, Same-self, length-snoc, ltb-lt,
}

put_dir-Leaves :
    (memory : Bool) (name : List ℕ) (node parent : ℕ) (h k : History)
    → Same h k
    → IsBounded k
    → length k.fh_dirs < n_dir_entries
    → k.fh_dir_name_buf_index + length name + 1 ≤ dir_namebuf_size
    → Leaves
        (all_files h)
        (all_dirs h
          ++ (record {
            dir_name = take (path_namebuf_size - 1) name;
            dir_node = node;
            dir_parent = parent;
          }
              ∷ []))
        (all_nodes h)
        h
        (put_dir memory name node parent k)
unfolding put_dir
put_dir-Leaves memory name node parent h k (f, d, n) b lt room =
    let e : DirEntry = record {
      dir_name = take (path_namebuf_size - 1) name;
      dir_node = node;
      dir_parent = parent;
    } in
    let (s, t) = length-take_le (path_namebuf_size - 1) name in
    if-cases (Leaves (all_files h) (all_dirs h ++ (e ∷ [])) (all_nodes h) h) (not memory)
      (λ m. (b, f, d, n))
      (λ m.
        if-cases (Leaves (all_files h) (all_dirs h ++ (e ∷ [])) (all_nodes h) h)
          (ltb dir_namebuf_size
            (k.fh_dir_name_buf_index + length (take (path_namebuf_size - 1) name) + 1))
          (λ o. absurd (omega (arith, ltb-lt _ _ o, t, room)))
          (λ o. (
            record {
              files_le = b.files_le;
              dirs_le = omega (arith, lt, length-snoc k.fh_dirs e);
              nodes_le = b.nodes_le;
            },
            f,
            sym (append_assoc (dirs_of k.sent) k.fh_dirs (e ∷ [])) ∙ ap (λ r. r ++ (e ∷ [])) d,
            n,
          )))

-- The same for a directory, when its name is shorter than the name buffer.
pub file_history_dir :
    (sends memory : Bool) (name : List ℕ) (node parent : ℕ) (h : History)
    → IsBounded h
    → length name < dir_namebuf_size
    → Leaves
        (all_files h)
        (all_dirs h
          ++ (record {
            dir_name = take (path_namebuf_size - 1) name;
            dir_node = node;
            dir_parent = parent;
          }
              ∷ []))
        (all_nodes h)
        h
        (ndmpd_api_file_history_dir_v3 sends memory (some name) node parent h)
unfolding ndmpd_api_file_history_dir_v3
file_history_dir sends memory name node parent h b short =
    let P =
      Leaves (all_files h)
        (all_dirs h
          ++ (record {
            dir_name = take (path_namebuf_size - 1) name;
            dir_node = node;
            dir_parent = parent;
          }
              ∷ []))
        (all_nodes h) h in
    if-cases P (dirs_full name h)
      (λ full.
        if-cases P sends
          (λ s.
            put_dir-Leaves memory name node parent h (send_dirs h) (send_dirs-Same h)
              (record { files_le = b.files_le; dirs_le = omega arith; nodes_le = b.nodes_le })
              (omega arith) (omega (arith, short)))
          (λ s. (b, refl, refl, refl)))
      (λ full.
        put_dir-Leaves memory name node parent h h (Same-self h) b (ground (arith, full, b.dirs_le))
          (ground (arith, full)))

pub Same-trans : (h k l : History) → Same h k → Same k l → Same h l
Same-trans h k l (a, b, c) (d, e, f) = (d ∙ a, e ∙ b, f ∙ c)

flush_dirs-Same :
    (sends : Bool) (h : History)
    → IsBounded h
    → Same h (flush_dirs sends h) × IsBounded (flush_dirs sends h)
unfolding flush_dirs ndmpd_api_file_history_dir_v3
flush_dirs-Same sends h b =
    if-cases (λ r. Same h (left_by h r) × IsBounded (left_by h r)) (length h.fh_dirs == 0)
      (λ e. (Same-self h, b))
      (λ e.
        if-cases (λ r. Same h (left_by h r) × IsBounded (left_by h r)) sends
          (λ s. (
            send_dirs-Same h,
            record { files_le = b.files_le; dirs_le = omega arith; nodes_le = b.nodes_le },
          ))
          (λ s. (Same-self h, b)))

put_node-Leaves :
    (memory : Bool) (node : ℕ) (st : Stat) (fh_info : ℕ) (h k : History)
    → Same h k
    → IsBounded k
    → length k.fh_nodes < n_node_entries
    → Leaves
        (all_files h)
        (all_dirs h)
        (all_nodes h ++ (node_entry node st fh_info ∷ []))
        h
        (put_node memory node st fh_info k)
put_node-Leaves memory node st fh_info h k (f, d, n) b lt =
    let e = node_entry node st fh_info in
    if-cases (Leaves (all_files h) (all_dirs h) (all_nodes h ++ (e ∷ [])) h) memory
      (λ m. (
        record {
          files_le = b.files_le;
          dirs_le = b.dirs_le;
          nodes_le = omega (arith, lt, length-snoc k.fh_nodes e);
        },
        f,
        d,
        sym (append_assoc (nodes_of k.sent) k.fh_nodes (e ∷ [])) ∙ ap (λ r. r ++ (e ∷ [])) n,
      ))
      (λ m. (b, f, d, n))

-- The same for a node, whatever the sending of the directories returns.
file_history_node :
    (sends_dirs sends memory : Bool) (node : ℕ) (st : Stat) (fh_info : ℕ) (h : History)
    → IsBounded h
    → Leaves
        (all_files h)
        (all_dirs h)
        (all_nodes h ++ (node_entry node st fh_info ∷ []))
        h
        (ndmpd_api_file_history_node_v3 sends_dirs sends memory node (some st) fh_info h)
unfolding ndmpd_api_file_history_node_v3
file_history_node sends_dirs sends memory node st fh_info h b =
    let P =
      Leaves (all_files h) (all_dirs h) (all_nodes h ++ (node_entry node st fh_info ∷ [])) h in
    let k = flush_dirs sends_dirs h in
    let (s, c) = flush_dirs-Same sends_dirs h b in
    if-cases P (length h.fh_nodes == n_node_entries)
      (λ full.
        if-cases P sends
          (λ t.
            put_node-Leaves memory node st fh_info h (send_nodes k)
              (Same-trans h k (send_nodes k) s (send_nodes-Same k))
              (record { files_le = c.files_le; dirs_le = c.dirs_le; nodes_le = omega arith })
              (omega arith))
          (λ t. let (f, d, n) = s in (c, f, d, n)))
      (λ full.
        put_node-Leaves memory node st fh_info h h (Same-self h) b
          (ground (arith, full, b.nodes_le)))
