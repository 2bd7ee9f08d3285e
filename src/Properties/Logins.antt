-- ===== src/Properties/Logins.antt =====
-- src/ndmpd_prop.c and src/ndmpd_connect.c: the logins that a configuration file grants.
use ndmpd.Common.{ℕ, ◌≡◌, ◌↔◌, sym, Bool, true, List, some, All}
use ndmpd.Protocol.{no_err}
use ndmpd.Base64.{done}
use ndmpd.Connect.{Config, auth_text, ndmpd_connect_client_auth_v3}
use ndmpd.Connect.Credentials.{IsGiven, client_auth-text_iff}
use ndmpd.Properties.{Table, ndmpd_get_prop, ndmpd_load_prop, loaded}
use ndmpd.Properties.Keys.{IsNamed}
use ndmpd.Properties.Files.{Entry, IsEntry, file_of, last_value, load-get_prop}

-- what the handlers of src/ndmpd_connect.c ask for
abbrev config_of : Table → Config
config_of table = record {
  cram_md5_username = ndmpd_get_prop table 15;
  cram_md5_password = ndmpd_get_prop table 16;
  cleartext_username = ndmpd_get_prop table 17;
  cleartext_password = ndmpd_get_prop table 18;
}

-- After a file is loaded that consists of comments of at most 125 characters, empty lines and settings,
-- each with the whole name of a property and a value of at most 64 visible characters, a client that sends a name and a password in clear text is authorized just
-- when these are the values, both not empty, that the file sets last for `cleartext-username` and
-- `cleartext-password`, or that the table had where the file sets none.
load-client_auth :
    (md5 : List ℕ → List ℕ) (after : List ℕ) (memory : Bool) (es : List Entry) (table : Table)
    → (challenge auth_id auth_password : List ℕ) → All IsEntry es
    → IsNamed table
    → (t : Table) × (ndmpd_load_prop (some (file_of es)) table ≡ loaded (0, t))
      × ((ndmpd_connect_client_auth_v3 md5 after memory
              (config_of t)
              challenge
              (auth_text auth_id auth_password)
            ≡ done (true, no_err))
          ↔ (IsGiven (last_value 17 es (ndmpd_get_prop table 17)) auth_id
              × IsGiven (last_value 18 es (ndmpd_get_prop table 18)) auth_password))
load-client_auth md5 after memory es table challenge auth_id auth_password h n =
    let (t, e, values) = load-get_prop es table h n in
    let granted =
      client_auth-text_iff md5 after memory (config_of t) challenge auth_id auth_password in
    (t, e, rw (sym (values 17), sym (values 18)) granted)
