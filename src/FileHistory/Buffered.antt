-- ===== src/FileHistory/Buffered.antt =====
-- src/ndmpd_fhistory.c: no entry is lost, repeated or put behind a later one, and the buffers are not
-- overrun.
use ndmpd.Common.{
  length-take_le, ◌⊎◌, if-cases, ℕ, ◌+◌, ◌-◌, ◌<◌, ◌≤◌, ◌≡◌, refl, sym, ap, ◌∙◌, Bool, true, not,
  List, [], ◌∷◌, ◌++◌, ltb, some, length, length-append, take, arith, inl, inr, append_assoc,
  append-nil,
}
use ndmpd.FileHistory.{
  Stat, FileEntry, DirEntry, NodeEntry, fh_add_file, fh_add_dir, fh_add_node, History, Result,
  success, failure, overrun, n_file_entries, path_namebuf_size, send_files, send_dirs, send_nodes,
  files_full, file_entry, put_file, ndmpd_api_file_history_file_v3,
}
use ndmpd.FileHistory.Streams.{
  files_of, dirs_of, nodes_of, files_of-append, dirs_of-append, nodes_of-append, all_files,
  all_dirs, all_nodes, IsBounded,
}

-- what a call leaves: after success, the entries `f`, `d` and `n` were added; after failure, none
abbrev pub Leaves : List FileEntry → List DirEntry → List NodeEntry → History → Result → Type 0
Leaves f d n h (success k) = IsBounded k × (all_files k ≡ f) × (all_dirs k ≡ d) × (all_nodes k ≡ n)
Leaves f d n h (failure k) =
    IsBounded k
    × (all_files k ≡ all_files h)
    × (all_dirs k ≡ all_dirs h)
    × (all_nodes k ≡ all_nodes h)
Leaves f d n h overrun = ⊥

-- sending changes none of the entries
abbrev pub Same : History → History → Type 0
Same h k = (all_files k ≡ all_files h) × (all_dirs k ≡ all_dirs h) × (all_nodes k ≡ all_nodes h)

pub send_files-Same : (h : History) → Same h (send_files h)
unfolding files_of dirs_of nodes_of
send_files-Same h = (
  append-nil (files_of (h.sent ++ (fh_add_file h.fh_files ∷ [])))
      ∙ files_of-append h.sent (fh_add_file h.fh_files ∷ [])
      ∙ ap (λ r. files_of h.sent ++ r) (append-nil h.fh_files),
  ap (λ r. r ++ h.fh_dirs)
      (dirs_of-append h.sent (fh_add_file h.fh_files ∷ []) ∙ append-nil (dirs_of h.sent)),
  ap (λ r. r ++ h.fh_nodes)
      (nodes_of-append h.sent (fh_add_file h.fh_files ∷ []) ∙ append-nil (nodes_of h.sent)),
)

pub send_dirs-Same : (h : History) → Same h (send_dirs h)
unfolding files_of dirs_of nodes_of
send_dirs-Same h = (
  ap (λ r. r ++ h.fh_files)
      (files_of-append h.sent (fh_add_dir h.fh_dirs ∷ []) ∙ append-nil (files_of h.sent)),
  append-nil (dirs_of (h.sent ++ (fh_add_dir h.fh_dirs ∷ [])))
      ∙ dirs_of-append h.sent (fh_add_dir h.fh_dirs ∷ [])
      ∙ ap (λ r. dirs_of h.sent ++ r) (append-nil h.fh_dirs),
  ap (λ r. r ++ h.fh_nodes)
      (nodes_of-append h.sent (fh_add_dir h.fh_dirs ∷ []) ∙ append-nil (nodes_of h.sent)),
)

pub send_nodes-Same : (h : History) → Same h (send_nodes h)
unfolding files_of dirs_of nodes_of
send_nodes-Same h = (
  ap (λ r. r ++ h.fh_files)
      (files_of-append h.sent (fh_add_node h.fh_nodes ∷ []) ∙ append-nil (files_of h.sent)),
  ap (λ r. r ++ h.fh_dirs)
      (dirs_of-append h.sent (fh_add_node h.fh_nodes ∷ []) ∙ append-nil (dirs_of h.sent)),
  append-nil (nodes_of (h.sent ++ (fh_add_node h.fh_nodes ∷ [])))
      ∙ nodes_of-append h.sent (fh_add_node h.fh_nodes ∷ [])
      ∙ ap (λ r. nodes_of h.sent ++ r) (append-nil h.fh_nodes),
)

pub Same-self : (h : History) → Same h h
Same-self h = (refl, refl, refl)

pub length-snoc {ℓ} : {A : Type ℓ} (s : List A) (a : A) → length (s ++ (a ∷ [])) ≡ length s + 1
length-snoc s a = length-append s (a ∷ [])

abbrev pub stored_file : List ℕ → Stat → ℕ → FileEntry
stored_file name st fh_info = file_entry (take (path_namebuf_size - 1) name) st fh_info

pub ltb-lt : (a b : ℕ) → ltb a b ≡ true → a < b
ltb-lt a b e = ground arith

put_file-Leaves :
    (memory : Bool) (name : List ℕ) (st : Stat) (fh_info : ℕ) (h k : History)
    → Same h k
    → IsBounded k
    → length k.fh_files < n_file_entries
    → (k.fh_file_name_buf_index ≡ 0)
      ⊎ (k.fh_file_name_buf_index + length name + 1 ≤ path_namebuf_size)
    → Leaves
        (all_files h ++ (stored_file name st fh_info ∷ []))
        (all_dirs h)
        (all_nodes h)
        h
        (put_file memory name st fh_info k)
unfolding put_file
put_file-Leaves memory name st fh_info h k (f, d, n) b lt room =
    let e = stored_file name st fh_info in
    let (s, t) = length-take_le (path_namebuf_size - 1) name in
    if-cases (Leaves (all_files h ++ (e ∷ [])) (all_dirs h) (all_nodes h) h) (not memory)
      (λ m. (b, f, d, n))
      (λ m.
        if-cases (Leaves (all_files h ++ (e ∷ [])) (all_dirs h) (all_nodes h) h)
          (ltb path_namebuf_size
            (k.fh_file_name_buf_index + length (take (path_namebuf_size - 1) name) + 1))
          (λ o. elim room [
            | inl z ↦ absurd (omega (arith, ltb-lt _ _ o, s, z))
            | inr z ↦ absurd (omega (arith, ltb-lt _ _ o, t, z))
          ])
          (λ o. (
            record {
              files_le = omega (arith, lt, length-snoc k.fh_files e);
              dirs_le = b.dirs_le;
              nodes_le = b.nodes_le;
            },
            sym (append_assoc (files_of k.sent) k.fh_files (e ∷ [])) ∙ ap (λ r. r ++ (e ∷ [])) f,
            d,
            n,
          )))

-- A file that is added to the history stands behind all that were added before, in the messages sent
-- or in the buffer, its name cut to the buffer's size; when the call fails, nothing is lost. No call
-- overruns the buffers, whatever the name, or fills them beyond their sizes.
pub file_history_file :
    (sends memory : Bool) (name : List ℕ) (st : Stat) (fh_info : ℕ) (h : History)
    → IsBounded h
    → Leaves
        (all_files h ++ (stored_file name st fh_info ∷ []))
        (all_dirs h)
        (all_nodes h)
        h
        (ndmpd_api_file_history_file_v3 sends memory (some (name, st)) fh_info h)
unfolding ndmpd_api_file_history_file_v3
file_history_file sends memory name st fh_info h b =
    let P =
      Leaves (all_files h ++ (stored_file name st fh_info ∷ [])) (all_dirs h) (all_nodes h) h in
    if-cases P (files_full name h)
      (λ full.
        if-cases P sends
          (λ s.
            put_file-Leaves memory name st fh_info h (send_files h) (send_files-Same h)
              (record { files_le = omega arith; dirs_le = b.dirs_le; nodes_le = b.nodes_le })
              (omega arith) (inl refl))
          (λ s. (b, refl, refl, refl)))
      (λ full.
        put_file-Leaves memory name st fh_info h h (Same-self h) b
          (ground (arith, full, b.files_le)) (inr (ground (arith, full))))
