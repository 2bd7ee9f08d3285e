-- ===== src/Dispatch/OpenHandlers.antt =====
-- src/ndmpd_table.c and src/ndmpd_func.c: the handlers for clients that are not authenticated.
use ndmpd.Common.{ℕ, ◌≡◌, refl, Bool, true, false, ◌&&◌, ◌||◌, none, some, arith}
use ndmpd.HandlerTable.{
  HandlerFunc, config_get_server_info_v3, config_get_auth_attr_v3, connect_open_v3,
  connect_client_auth_v3, connect_close_v3, MsgHandler, HdMessage, Interface, ndmp_msghdl_tab,
}
use ndmpd.Dispatch.{
  Found, found, missing, outside, ndmp_get_interface, ndmp_get_handler, ndmp_check_auth_required,
  msg_v,
}
use ndmpd.Dispatch.Lookup.{all_of, found_passes}

-- the handlers for clients that are not authenticated
abbrev pub is_open : HandlerFunc → Bool
is_open config_get_server_info_v3 = true
is_open config_get_auth_attr_v3 = true
is_open connect_open_v3 = true
is_open connect_client_auth_v3 = true
is_open connect_close_v3 = true
is_open _ = false

abbrev pub open_handler : MsgHandler → Bool
open_handler h = elim h.mh_func [ none ↦ true | some f ↦ is_open f ]

abbrev entry_ok : HdMessage → Bool
entry_ok e =
    e.hm_auth_required || (open_handler e.hm_v2 && open_handler e.hm_v3 && open_handler e.hm_v4)

table_ok : all_of (λ (ni : Interface). all_of entry_ok ni.hd_msgs) ndmp_msghdl_tab ≡ true
unfolding all_of ndmp_msghdl_tab
table_ok = refl

msg_v-open :
    (e : HdMessage) (ver : ℕ) {h : MsgHandler}
    → entry_ok e ≡ true
    → e.hm_auth_required ≡ false
    → msg_v e ver ≡ found h
    → open_handler h ≡ true
msg_v-open e ver ok free q = ground arith

-- A message that needs no authenticated client has an open handler, in each version.
pub handler_open :
    (ver m : ℕ) {h : MsgHandler}
    → ndmp_get_handler ver m ≡ found h
    → ndmp_check_auth_required m ≡ false
    → open_handler h ≡ true
unfolding ndmp_get_handler ndmp_check_auth_required
handler_open ver m {h} q r = go (ndmp_get_interface m) refl
  where
    go : (o : Found HdMessage) → ndmp_get_interface m ≡ o → open_handler h ≡ true
    go (found e) p =
        msg_v-open e ver {h = h} (found_passes entry_ok m {e = e} table_ok p) (ground arith)
          (ground arith)
    go missing p = absurd (ground arith)
    go outside p = absurd (ground arith)
