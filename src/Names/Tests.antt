-- ===== src/Names/Tests.antt =====
-- tlm/tlm_util.c, tlm/tlm_lib.c and src/ndmpd_util.c on concrete patterns and paths.
use ndmpd.Common.{◌≡◌, ◌↔◌, refl, true, arith}
use ndmpd.Common.Bytes.{codes}
use ndmpd.Names.{match, match_from, star, any_char, one_char}
use ndmpd.Names.Match.{Matches, match_iff}

matches_runs : match (codes "*.o?t") (codes "a.o.out") ≡ true
unfolding match match_from star any_char one_char
matches_runs = refl

match_iff_example :
    (match (codes "*.c") (codes "tlm.c") ≡ true) ↔ Matches (codes "*.c") (codes "tlm.c")
match_iff_example =
    match_iff (codes "*.c") (codes "tlm.c") (ground arith, (ground arith, (ground arith, tt)))
