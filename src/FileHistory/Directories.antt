-- ===== src/FileHistory/Directories.antt =====
-- src/ndmpd_fhistory.c: directory entries are sent one at a time.
use ndmpd.Common.{
  if-cases, ◌⊎◌, ℕ, ◌+◌, ◌-◌, ◌≤◌, ◌<◌, ◌≡◌, refl, sym, ap, ◌∙◌, Bool, true, false, not, List, [],
  ◌∷◌, ◌++◌, ltb, some, length, length-take_le, take, arith, inl, inr, append-nil,
}
use ndmpd.FileHistory.{
  DirEntry, Message, fh_add_dir, History, Result, success, failure, overrun, path_namebuf_size,
  dir_namebuf_size, send_dirs, dirs_full, put_dir, ndmpd_api_file_history_dir_v3,
}

-- the buffer of directories is empty, or holds one, and its name buffer counts as used up
abbrev pub OneDir : History → Type 0
OneDir h =
    ((h.fh_dirs ≡ []) × (h.fh_dir_name_buf_index ≡ 0))
    ⊎ ((d : DirEntry) × (h.fh_dirs ≡ d ∷ []) × (dir_namebuf_size ≤ h.fh_dir_name_buf_index))

-- the message that empties the buffer, if it holds something
abbrev pub message_of : List DirEntry → List Message
message_of [] = []
message_of (d ∷ ds) = fh_add_dir (d ∷ ds) ∷ []

-- The buffer of the history was sent before the entry was put into it, or before there was no memory
-- for it; or nothing changed.
abbrev pub Apart : History → DirEntry → Result → Type 0
Apart h e (success k) = OneDir k × (k.fh_dirs ≡ e ∷ []) × (k.sent ≡ h.sent ++ message_of h.fh_dirs)
Apart h e (failure k) =
    OneDir k
    × (((k.fh_dirs ≡ h.fh_dirs) × (k.sent ≡ h.sent))
        ⊎ ((k.fh_dirs ≡ []) × (k.sent ≡ h.sent ++ message_of h.fh_dirs)))
Apart h e overrun = ⊥

abbrev pub dir_entry : List ℕ → ℕ → ℕ → DirEntry
dir_entry name node parent = record {
  dir_name = take (path_namebuf_size - 1) name;
  dir_node = node;
  dir_parent = parent;
}

too_long :
    (index stored n size : ℕ)
    → ltb size (index + stored + 1) ≡ true
    → index ≡ 0
    → stored ≤ n
    → n < size
    → ⊥
too_long index stored n size l i le short = ground (arith, l, i, le, short)

put_dir-Apart :
    (memory : Bool) (name : List ℕ) (node parent : ℕ) (h g : History)
    → length name < dir_namebuf_size
    → h.fh_dirs ≡ []
    → h.fh_dir_name_buf_index ≡ 0
    → h.sent ≡ g.sent ++ message_of g.fh_dirs
    → Apart g (dir_entry name node parent) (put_dir memory name node parent h)
unfolding put_dir
put_dir-Apart memory name node parent h g short z i e =
    let r = Apart g (dir_entry name node parent) in
    let le = (length-take_le (path_namebuf_size - 1) name).1 in
    if-cases r (not memory) (λ m. (inl (z, i), inr (z, e)))
      (λ m.
        if-cases r
          (ltb dir_namebuf_size
            (h.fh_dir_name_buf_index + length (take (path_namebuf_size - 1) name) + 1))
          (λ l. absurd (too_long _ _ _ _ l i le short))
          (λ l. (inr (dir_entry name node parent, one z, omega arith), one z, e)))
  where
    one : {ds : List DirEntry} {d : DirEntry} → ds ≡ [] → ds ++ (d ∷ []) ≡ d ∷ []
    one q = rw q refl

-- Directories are sent one at a time, though the buffer has room for `n_dir_entries`: when one is added
-- whose name is shorter than the name buffer, the one before it is sent in a message of its own, and
-- the buffer holds just the new one; a failure changes nothing or leaves the buffer sent and empty.
pub file_history_dir-OneDir :
    (sends memory : Bool) (name : List ℕ) (node parent : ℕ) (h : History)
    → length name < dir_namebuf_size
    → OneDir h
    → Apart h
        (dir_entry name node parent)
        (ndmpd_api_file_history_dir_v3 sends memory (some name) node parent h)
unfolding ndmpd_api_file_history_dir_v3
file_history_dir-OneDir sends memory name node parent h short (inl (z, i)) =
    let kept : h.sent ≡ h.sent ++ message_of h.fh_dirs =
      sym (ap (λ (ds : List DirEntry). h.sent ++ message_of ds) z ∙ append-nil h.sent) in
    if-cases (Apart h (dir_entry name node parent)) (dirs_full name h)
      (λ e. absurd (not_full (length-nil z) e))
      (λ e. put_dir-Apart memory name node parent h h short z i kept)
  where
    length-nil : {ds : List DirEntry} → ds ≡ [] → length ds ≡ 0
    length-nil q = rw q refl

    not_full : length h.fh_dirs ≡ 0 → dirs_full name h ≡ true → ⊥
    not_full n e = ground (arith, e, n, i, short)
file_history_dir-OneDir sends memory name node parent h short (inr (d, z, le)) =
    let full : message_of h.fh_dirs ≡ fh_add_dir h.fh_dirs ∷ [] = message z in
    if-cases (Apart h (dir_entry name node parent)) (dirs_full name h)
      (λ e.
        if-cases (Apart h (dir_entry name node parent)) sends
          (λ s.
            put_dir-Apart memory name node parent (send_dirs h) h short refl refl
              (ap (λ (m : List Message). h.sent ++ m) (sym full)))
          (λ s. (inr (d, z, le), inl (refl, refl))))
      (λ e. absurd (is_full e))
  where
    message : {ds : List DirEntry} → ds ≡ d ∷ [] → message_of ds ≡ fh_add_dir ds ∷ []
    message q = rw q refl

    is_full : dirs_full name h ≡ false → ⊥
    is_full e = ground (arith, e, le)
