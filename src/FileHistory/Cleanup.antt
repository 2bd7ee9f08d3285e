-- ===== src/FileHistory/Cleanup.antt =====
-- src/ndmpd_fhistory.c: the clean-up sends what is buffered.
use ndmpd.Common.{
  if-cases, ◌≡◌, refl, sym, ap, ◌∙◌, true, List, [], ◌∷◌, ◌++◌, ◌==◌, none, length, arith,
  append-nil,
}
use ndmpd.FileHistory.{
  History, ndmpd_file_history_init, send_nodes, ndmpd_api_file_history_file_v3,
  ndmpd_api_file_history_dir_v3, left_by, flush_dirs, ndmpd_api_file_history_node_v3, flush_all,
  ndmpd_file_history_cleanup_v3,
}
use ndmpd.FileHistory.Streams.{files_of, dirs_of, nodes_of, all_files, all_dirs, all_nodes}
use ndmpd.FileHistory.Buffered.{Same, send_files-Same, send_dirs-Same, send_nodes-Same, Same-self}
use ndmpd.FileHistory.DirsAndNodes.{Same-trans}

length_zero {ℓ} : {A : Type ℓ} (s : List A) → (length s == 0) ≡ true → s ≡ []
length_zero [] e = refl
length_zero (a ∷ s) e = absurd (ground (arith, e))

flushed_files :
    (h : History)
    → let k = left_by h (ndmpd_api_file_history_file_v3 true true none 0 h) in
      Same h k × (k.fh_files ≡ [])
unfolding ndmpd_api_file_history_file_v3
flushed_files h =
    if-cases (λ r. Same h (left_by h r) × ((left_by h r).fh_files ≡ [])) (length h.fh_files == 0)
      (λ e. (Same-self h, length_zero h.fh_files e)) (λ e. (send_files-Same h, refl))

pub flushed_dirs :
    (h : History)
    → let k = flush_dirs true h in
      Same h k × (k.fh_dirs ≡ []) × (k.fh_files ≡ h.fh_files) × (k.fh_nodes ≡ h.fh_nodes)
unfolding flush_dirs ndmpd_api_file_history_dir_v3
flushed_dirs h =
    if-cases
      (λ r.
        Same h (left_by h r)
        × ((left_by h r).fh_dirs ≡ [])
        × ((left_by h r).fh_files ≡ h.fh_files)
        × ((left_by h r).fh_nodes ≡ h.fh_nodes))
      (length h.fh_dirs == 0) (λ e. (Same-self h, length_zero h.fh_dirs e, refl, refl))
      (λ e. (send_dirs-Same h, refl, refl, refl))

flushed_nodes :
    (h : History)
    → let k = left_by h (ndmpd_api_file_history_node_v3 true true true 0 none 0 h) in
      h.fh_dirs ≡ [] → Same h k × (k.fh_nodes ≡ []) × (k.fh_files ≡ h.fh_files) × (k.fh_dirs ≡ [])
unfolding ndmpd_api_file_history_node_v3
flushed_nodes h z =
    let (s, d, f, n) = flushed_dirs h in
    let k = flush_dirs true h in
    if-cases
      (λ r.
        Same h (left_by h r)
        × ((left_by h r).fh_nodes ≡ [])
        × ((left_by h r).fh_files ≡ h.fh_files)
        × ((left_by h r).fh_dirs ≡ []))
      (length h.fh_nodes == 0) (λ e. (Same-self h, length_zero h.fh_nodes e, refl, z))
      (λ e. (Same-trans h k (send_nodes k) s (send_nodes-Same k), refl, f, d))

all_sent {ℓ} : {A : Type ℓ} (sent rest all : List A) → sent ++ rest ≡ all → rest ≡ [] → sent ≡ all
all_sent sent rest all e z = sym (append-nil sent) ∙ ap (λ r. sent ++ r) (sym z) ∙ e

-- When every message can be sent, the clean-up with its flag set sends all that is buffered: the
-- messages then hold every file, directory and node that was added, in order, and the buffers are
-- empty.
pub file_history_cleanup :
    (h : History)
    → let k = ndmpd_file_history_cleanup_v3 true true true true h in
      (files_of k.sent ≡ all_files h)
      × (dirs_of k.sent ≡ all_dirs h)
      × (nodes_of k.sent ≡ all_nodes h)
      × (k ≡ ndmpd_file_history_init k.sent)
unfolding ndmpd_file_history_cleanup_v3 flush_all ndmpd_file_history_init
file_history_cleanup h =
    let a = left_by h (ndmpd_api_file_history_file_v3 true true none 0 h) in
    let (s, f) = flushed_files h in
    let b = flush_dirs true a in
    let (t, d, u, m) = flushed_dirs a in
    let (v, n, w, x) = flushed_nodes b d in
    let c = left_by b (ndmpd_api_file_history_node_v3 true true true 0 none 0 b) in
    let (p, q, r) = Same-trans h b c (Same-trans h a b s t) v in
    (
      all_sent (files_of c.sent) c.fh_files (all_files h) p (w ∙ u ∙ f),
      all_sent (dirs_of c.sent) c.fh_dirs (all_dirs h) q x,
      all_sent (nodes_of c.sent) c.fh_nodes (all_nodes h) r n,
      refl,
    )
