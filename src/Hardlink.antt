-- ===== src/Hardlink.antt =====
-- tlm/tlm_hardlink.c: the queue of the files with several links that were already written. A queue
-- that could not be allocated is `none`.
pub mod Queue
mod Tests
use ndmpd.Common.{
  ℕ, Bool, true, false, ◌&&◌, List, [], ◌∷◌, ◌++◌, ◌==◌, if◌then◌else◌, Option, none, some,
}

-- `struct hardlink_node`
pub record HardlinkNode : Type 0 where
  pub inode : ℕ
  pub path : Option (List ℕ)
  pub offset : ℕ
  pub is_tmp : Bool

-- `memory` tells whether `malloc` gives some.
hardlink_q_init : Bool → Option (List HardlinkNode)
hardlink_q_init memory = if memory then some [] else none

-- the loop: the first node with the inode
unfoldable pub find_inode : ℕ → List HardlinkNode → Option HardlinkNode
find_inode i [] = none
find_inode i (hl ∷ hl_q) = let rest = find_inode i hl_q in if hl.inode == i then some hl else rest

-- The node's offset and path are what the call stores; `none` is the result -1.
unfoldable pub hardlink_q_get : Option (List HardlinkNode) → ℕ → Option (ℕ × Option (List ℕ))
unfolding find_inode
hardlink_q_get none i = none
hardlink_q_get (some hl_q) i = elim (find_inode i hl_q) [
  | none ↦ none
  | some hl ↦ some (hl.offset, hl.path)
]

-- what `hardlink_q_add` does after its search; `copied` is what `strdup` gives of the path.
unfoldable pub add_node :
    List HardlinkNode → Option HardlinkNode → HardlinkNode → Bool → List HardlinkNode × Bool
add_node hl_q (some hl) node memory = (hl_q, false)
add_node hl_q none node memory = if memory then (node ∷ hl_q, true) else (hl_q, false)

-- The queue after the call, and whether the result is 0
unfoldable pub hardlink_q_add :
    Option (List HardlinkNode) → HardlinkNode → Bool → Option (List HardlinkNode) × Bool
unfolding add_node find_inode
hardlink_q_add none node memory = (none, false)
hardlink_q_add (some hl_q) node memory =
    let (hl_q', ok) = add_node hl_q (find_inode node.inode hl_q) node memory in (some hl_q', ok)

-- the file that the cleanup of a node removes
unfoldable pub removed : HardlinkNode → List (List ℕ)
removed hl = if hl.is_tmp then (elim hl.path [ none ↦ [] | some p ↦ p ∷ [] ]) else []

-- The files that `hardlink_q_cleanup` removes, in order; it frees the nodes and the queue.
unfoldable pub hardlink_q_cleanup : Option (List HardlinkNode) → List (List ℕ)
unfolding removed
hardlink_q_cleanup none = []
hardlink_q_cleanup (some []) = []
hardlink_q_cleanup (some (hl ∷ hl_q)) = removed hl ++ hardlink_q_cleanup (some hl_q)
