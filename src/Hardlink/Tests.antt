-- ===== src/Hardlink/Tests.antt =====
-- tlm/tlm_hardlink.c on a concrete queue.
use ndmpd.Common.{◌≡◌, ◌↔◌, refl, true, false, ◌&&◌, [], ◌∷◌, ◌==◌, if◌then◌else◌, none, some}
use ndmpd.Common.Bytes.{codes}
use ndmpd.Hardlink.{HardlinkNode, find_inode, hardlink_q_get, hardlink_q_add}
use ndmpd.Hardlink.Queue.{IsDistinct, entry, get-add}

abbrev saved : HardlinkNode
saved = record { inode = 12; path = some (codes "a"); offset = 512; is_tmp = false }

abbrev restored : HardlinkNode
restored = record { inode = 40; path = some (codes "/tmp/b"); offset = 0; is_tmp = true }

saved-IsDistinct : IsDistinct (saved ∷ [])
unfolding find_inode
saved-IsDistinct = (refl, tt)

get-add_example :
    let (q, ok) = hardlink_q_add (some (saved ∷ [])) restored true in
    ((ok ≡ true) ↔ ((hardlink_q_get (some (saved ∷ [])) 40 ≡ none) × (true ≡ true)))
    × (hardlink_q_get q 12 ≡ (
        if ok && (40 == 12) then some (entry restored) else hardlink_q_get (some (saved ∷ [])) 12))
get-add_example = get-add (saved ∷ []) restored true 12
