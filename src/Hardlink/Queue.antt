-- ===== src/Hardlink/Queue.antt =====
-- tlm/tlm_hardlink.c: the queue as a map from inodes, and the files that its cleanup removes.
use ndmpd.Common.{
  ℕ, ◌≡◌, ◌↔◌, inl, inr, refl, Bool, true, false, ◌&&◌, List, [], ◌∷◌, ◌++◌, ◌==◌, if◌then◌else◌,
  Option, none, some, arith, Bool-cases,
}
use ndmpd.Hardlink.{
  HardlinkNode, find_inode, hardlink_q_get, add_node, hardlink_q_add, removed, hardlink_q_cleanup,
}

-- no inode is in two nodes
abbrev pub IsDistinct : List HardlinkNode → Type 0
IsDistinct [] = Unit
IsDistinct (hl ∷ hl_q) = (find_inode hl.inode hl_q ≡ none) × IsDistinct hl_q

abbrev pub IsAll : (List HardlinkNode → Type 0) → Option (List HardlinkNode) → Type 0
IsAll P none = Unit
IsAll P (some q) = P q

-- what the queue maps an inode to
abbrev pub entry : HardlinkNode → ℕ × Option (List ℕ)
entry hl = (hl.offset, hl.path)

-- Adding a node to a queue: when its inode is not there and there is memory, the call succeeds, the
-- inode is then found with the node's offset and path, and every other inode as before. Otherwise the
-- call fails and every inode is found as before.
pub get-add :
    (hl_q : List HardlinkNode) (node : HardlinkNode) (memory : Bool) (i : ℕ)
    → let (q, ok) = hardlink_q_add (some hl_q) node memory in
      ((ok ≡ true) ↔ ((hardlink_q_get (some hl_q) node.inode ≡ none) × (memory ≡ true)))
      × (hardlink_q_get q i
          ≡ (if ok && (node.inode == i) then some (entry node) else hardlink_q_get (some hl_q) i))
unfolding hardlink_q_add hardlink_q_get add_node find_inode
get-add hl_q node memory i = go (find_inode node.inode hl_q) refl
  where
    go :
        (o : Option HardlinkNode)
        → find_inode node.inode hl_q ≡ o
        → let (q, ok) = hardlink_q_add (some hl_q) node memory in
          ((ok ≡ true) ↔ ((hardlink_q_get (some hl_q) node.inode ≡ none) × (memory ≡ true)))
          × (hardlink_q_get q i ≡ (
              if ok && (node.inode == i) then some (entry node) else hardlink_q_get (some hl_q) i))
    go none e = elim (Bool-cases memory) [
      | inl m ↦ elim (Bool-cases (node.inode == i)) [
        | inl k ↦ ground (arith, e, m, k)
        | inr k ↦ ground (arith, e, m, k)
      ]
      | inr m ↦ ground (arith, e, m)
    ]
    go (some hl) e = ground (arith, e)

-- No inode is twice in a queue after a node is added, if none was before, and the cleanup removes
-- the file of the node, if it was added as a temporary one, and those of the queue.
add-IsDistinct :
    (hl_q : List HardlinkNode) (node : HardlinkNode) (memory : Bool)
    → IsDistinct hl_q
    → let (q, ok) = hardlink_q_add (some hl_q) node memory in
      (IsAll IsDistinct q)
      × (hardlink_q_cleanup q ≡ (if ok then removed node else []) ++ hardlink_q_cleanup (some hl_q))
unfolding hardlink_q_add add_node hardlink_q_cleanup
add-IsDistinct hl_q node memory d = go (find_inode node.inode hl_q) memory refl
  where
    go :
        (o : Option HardlinkNode) (memory : Bool)
        → find_inode node.inode hl_q ≡ o
        → let (q, ok) = add_node hl_q o node memory in
          IsDistinct q
          × (hardlink_q_cleanup (some q)
              ≡ (if ok then removed node else []) ++ hardlink_q_cleanup (some hl_q))
    go none true e = ((e, d), refl)
    go none false e = (d, refl)
    go (some hl) memory e = (d, refl)
