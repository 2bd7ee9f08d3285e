-- ===== src/FileHistory/Tests.antt =====
-- src/ndmpd_fhistory.c on a few entries.
use ndmpd.Common.{ltb, List, ◌≡◌, refl, true, [], ◌∷◌, ◌++◌, some, inl, inr, arith}
use ndmpd.Common.Bytes.{codes}
use ndmpd.FileHistory.{
  Stat, History, ndmpd_file_history_init, ndmpd_api_file_history_file_v3,
  ndmpd_api_file_history_dir_v3, put_dir, left_by, ndmpd_api_file_history_node_v3,
  ndmpd_file_history_cleanup_v3, flush_dirs, flush_all, fh_add_dir, fh_add_node, node_entry,
}
use ndmpd.FileHistory.Buffered.{Leaves, stored_file, file_history_file}
use ndmpd.FileHistory.Cleanup.{file_history_cleanup}
use ndmpd.FileHistory.Streams.{
  IsBounded, all_files, all_dirs, all_nodes, files_of, dirs_of, nodes_of,
}
use ndmpd.FileHistory.Callbacks.{Dirent, own_inode, Added, ndmpd_fhdir_v3_cb, fhdir_lem}
use ndmpd.FileHistory.Order.{Reachable, init, add_dir, add_node, clean_up, nodes_follow_dirs}
use ndmpd.FileHistory.Known.{NodesFollowDirs}
use ndmpd.FileHistory.Directories.{Apart, dir_entry, file_history_dir-OneDir}

abbrev test_stat : Stat
test_stat = record {
  st_ino = 9;
  st_mode = 33188;
  st_mtime = 1;
  st_atime = 2;
  st_ctime = 3;
  st_uid = 0;
  st_gid = 0;
  st_size = 4;
  st_nlink = 1;
}

abbrev no_history : History
unfolding ndmpd_file_history_init
no_history = ndmpd_file_history_init []

no_history-IsBounded : IsBounded no_history
unfolding no_history ndmpd_file_history_init
no_history-IsBounded = record {
  files_le = omega arith;
  dirs_le = omega arith;
  nodes_le = omega arith;
}

file_history_file_example :
    Leaves
      (all_files no_history ++ (stored_file (codes "a.c") test_stat 512 ∷ []))
      (all_dirs no_history)
      (all_nodes no_history)
      no_history
      (ndmpd_api_file_history_file_v3 true true (some (codes "a.c", test_stat)) 512 no_history)
file_history_file_example =
    file_history_file true true (codes "a.c") test_stat 512 no_history no_history-IsBounded

-- the root directory, and then a file of it
abbrev with_dir : History
unfolding no_history ndmpd_file_history_init ndmpd_api_file_history_dir_v3
with_dir =
    left_by no_history (ndmpd_api_file_history_dir_v3 true true (some (codes "a.c")) 9 2 no_history)

abbrev with_node : History
unfolding with_dir ndmpd_api_file_history_node_v3
with_node =
    left_by with_dir (ndmpd_api_file_history_node_v3 true true true 9 (some test_stat) 0 with_dir)

file_history_cleanup_example :
    let k = ndmpd_file_history_cleanup_v3 true true true true with_node in
    (files_of k.sent ≡ all_files with_node)
    × (dirs_of k.sent ≡ all_dirs with_node)
    × (nodes_of k.sent ≡ all_nodes with_node)
    × (k ≡ ndmpd_file_history_init k.sent)
file_history_cleanup_example = file_history_cleanup with_node

with_node_reachable : Reachable with_node
unfolding with_node with_dir no_history ndmpd_file_history_init ndmpd_api_file_history_dir_v3
    put_dir ndmpd_api_file_history_node_v3 dirs_of
with_node_reachable =
    let r : Reachable with_dir = add_dir {h = no_history} true true (codes "a.c") 9 2 init refl in
    add_node {h = with_dir} true true 9 test_stat 0 r (inl refl) refl

abbrev cleaned : History
unfolding with_node
cleaned = ndmpd_file_history_cleanup_v3 true true true true with_node

-- the clean-up sends the node behind its directory entry
cleaned_sends :
    cleaned.sent
    ≡ fh_add_dir (record { dir_name = codes "a.c"; dir_node = 9; dir_parent = 2 } ∷ [])
      ∷ fh_add_node (node_entry 9 test_stat 0 ∷ [])
      ∷ []
unfolding cleaned with_node with_dir no_history ndmpd_file_history_init
    ndmpd_api_file_history_dir_v3 put_dir ndmpd_api_file_history_node_v3
    ndmpd_file_history_cleanup_v3 flush_all flush_dirs ndmpd_api_file_history_file_v3
cleaned_sends = refl

nodes_follow_dirs_example : NodesFollowDirs [] cleaned.sent
unfolding ndmpd_file_history_cleanup_v3 cleaned
nodes_follow_dirs_example =
    nodes_follow_dirs cleaned (clean_up {h = with_node} true true true with_node_reachable)

file_history_dir-OneDir_example :
    Apart with_dir
      (dir_entry (codes "b") 12 9)
      (ndmpd_api_file_history_dir_v3 true true (some (codes "b")) 12 9 with_dir)
unfolding with_dir no_history ndmpd_file_history_init ndmpd_api_file_history_dir_v3 put_dir
file_history_dir-OneDir_example =
    file_history_dir-OneDir true true (codes "b") 12 9 with_dir (omega arith)
      (inr (dir_entry (codes "a.c") 9 2, refl, omega arith))

-- the directory of the backup, with inode 9, and a file
abbrev two_entries : List Dirent
two_entries =
    record { d_name = codes "."; d_fileno = 9 }
    ∷ record { d_name = codes "a.c"; d_fileno = 11 }
    ∷ []

fhdir_lem_example :
    Added
      (λ i. true)
      (λ i. ltb i 1)
      9
      (own_inode 9 9)
      0
      two_entries
      no_history
      (ndmpd_fhdir_v3_cb (λ i. true) (λ i. ltb i 1) 9 9 two_entries no_history)
fhdir_lem_example =
    fhdir_lem (λ i. true) (λ i. ltb i 1) 9 9 two_entries no_history no_history-IsBounded
      (omega arith, (omega arith, tt))
