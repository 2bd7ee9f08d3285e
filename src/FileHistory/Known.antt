-- ===== src/FileHistory/Known.antt =====
-- src/ndmpd_fhistory.c: messages in which each node follows its directory entry.
use ndmpd.Common.{◌⊎◌, ℕ, ◌≡◌, List, [], ◌∷◌, ◌++◌, All, inl, inr, append_assoc, append-nil}
use ndmpd.FileHistory.{DirEntry, NodeEntry, Message, fh_add_file, fh_add_dir, fh_add_node}
use ndmpd.FileHistory.Streams.{dirs_of}

-- a directory entry with the node's number
abbrev pub Known : ℕ → List DirEntry → Type 0
Known node [] = ⊥
Known node (d ∷ ds) = (d.dir_node ≡ node) ⊎ Known node ds

abbrev pub AllKnown : List NodeEntry → List DirEntry → Type 0
AllKnown ns ds = All (λ n. Known n.node_node ds) ns

-- every node in a message has a directory entry in an earlier message, or in `seen`
unfoldable pub NodesFollowDirs : List DirEntry → List Message → Type 0
NodesFollowDirs seen [] = Unit
NodesFollowDirs seen (fh_add_file e ∷ m) = NodesFollowDirs seen m
NodesFollowDirs seen (fh_add_dir e ∷ m) = NodesFollowDirs (seen ++ e) m
NodesFollowDirs seen (fh_add_node e ∷ m) = AllKnown e seen × NodesFollowDirs seen m

Known-append : (node : ℕ) (a b : List DirEntry) → Known node a → Known node (a ++ b)
Known-append node [] b k = absurd k
Known-append node (d ∷ a) b (inl e) = inl e
Known-append node (d ∷ a) b (inr k) = inr (Known-append node a b k)

pub AllKnown-append :
    (ns : List NodeEntry) (a b : List DirEntry) → AllKnown ns a → AllKnown ns (a ++ b)
AllKnown-append [] a b h = tt
AllKnown-append (n ∷ ns) a b (k, h) = (Known-append n.node_node a b k, AllKnown-append ns a b h)

pub AllKnown-snoc :
    (ns : List NodeEntry) (n : NodeEntry) (ds : List DirEntry)
    → AllKnown ns ds
    → Known n.node_node ds
    → AllKnown (ns ++ (n ∷ [])) ds
AllKnown-snoc [] n ds h k = (k, tt)
AllKnown-snoc (m ∷ ns) n ds (j, h) k = (j, AllKnown-snoc ns n ds h k)

pub NodesFollowDirs-append :
    (seen : List DirEntry) (m n : List Message)
    → NodesFollowDirs seen m
    → NodesFollowDirs (seen ++ dirs_of m) n
    → NodesFollowDirs seen (m ++ n)
unfolding NodesFollowDirs dirs_of
NodesFollowDirs-append seen [] n h k = rw (append-nil seen) at k
NodesFollowDirs-append seen (fh_add_file e ∷ m) n h k = NodesFollowDirs-append seen m n h k
NodesFollowDirs-append seen (fh_add_dir e ∷ m) n h k =
    NodesFollowDirs-append (seen ++ e) m n h (rw (← append_assoc seen e (dirs_of m)) at k)
NodesFollowDirs-append seen (fh_add_node e ∷ m) n (j, h) k =
    (j, NodesFollowDirs-append seen m n h k)
