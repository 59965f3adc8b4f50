-- ===== src/Tests/Users.antt =====
-- vpn-add-user and the static configuration, at concrete values.
use wg_auth.Base.{
  ℕ, zero, suc, arith, replicate, ◌≡◌, refl, true, [], ◌∷◌, List, none, some, Bytes, codes, All,
  str_eq, after, before,
}
use wg_auth.AddUser.{Terminal, created, create, with_password, parse_args, choose_path, add_user}
use wg_auth.Auth.{auth_hash_password}
use wg_auth.Db.{Db, runs, db_create_account, account_named}
use wg_auth.Tests.World.{ext, one_account, ann}
use wg_auth.WgCtl.StaticConfig.Commands.{IsSafe, wgctl_load_static_config-IsSafe}
use wg_auth.WgCtl.StaticConfig.Apply.{
  wgctl_load_static_config, configured, loaded, all_address_chars,
}
use wg_auth.WgCtl.StaticConfig.Outcome.{Outcome}
use wg_auth.WgCtl.StaticConfig.{
  load_conf_lines, load_conf_line, load_section, load_value, load_interface, conf_value,
  to_line_end, lower, go_on, nothing_read, going, state_peer,
}
use wg_auth.Config.Load.{fgets_all, to_nul, trim, trim_end}
use wg_auth.Libc.{skip_space, is_digit, is_space, atoi}
use wg_auth.WgCtl.StaticConfig.Settings.{setting_line, settings_read}
use wg_auth.WgCtl.StaticConfig.Values.{Solid}
use wg_auth.WgCtl.{peer_with}

abbrev terminal : Terminal
terminal = record {
  conf = none;
  sodium_ready = true;
  password = some (codes "hunter2");
  opened = λ path. some one_account;
  insert_run = runs;
  insert_time = 7;
}

abbrev arguments : List Bytes
arguments = codes "bob" ∷ codes "--db" ∷ codes "/tmp/db" ∷ []

abbrev two_accounts : Db
two_accounts = record one_account {
  accounts =
      ann
      ∷ record {
        id = 2;
        username = codes "bob";
        password_hash = codes "hunter2";
        created_at = 7;
        disabled = 0;
      }
      ∷ [];
  next_account = 3;
}

bob_added : add_user ext terminal arguments ≡ created (codes "/tmp/db") two_accounts
unfolding add_user parse_args choose_path with_password create auth_hash_password db_create_account
    account_named str_eq
bob_added = refl

abbrev conf : Bytes
conf = codes "[Interface]\nAddress = 10.8.0.1/24\n[Peer]\nAllowedIPs = x\n"

wgctl_load_static_config-IsSafe_example :
    All
      (IsSafe (codes "wg0"))
      (wgctl_load_static_config ext (λ n. true) (codes "wg0") (some conf) []).commands
wgctl_load_static_config-IsSafe_example =
    wgctl_load_static_config-IsSafe ext (λ n. true) (codes "wg0") (some conf) []

-- A text of n times the letter 'a'.
text_of : (n : ℕ) → All Solid (replicate n b'a')
unfolding is_space
text_of zero = tt
text_of (suc n) = ((omega arith, refl, omega arith), text_of n)

abbrev key : Bytes
key = replicate 32 b'a'

settings_read_example :
    load_conf_lines ext
      (λ n. true)
      (codes "[Interface]\n"
        ∷ setting_line (codes "PrivateKey") key
        ∷ setting_line (codes "ListenPort") (codes "51820")
        ∷ setting_line (codes "Address") (codes "a")
        ∷ codes "[Peer]\n"
        ∷ setting_line (codes "PublicKey") key
        ∷ [])
      nothing_read
    ≡ going (record {
      state = state_peer;
      has_private_key = true;
      private_key = key;
      has_listen_port = true;
      listen_port = 51820;
      peers = record (peer_with key) { replace_allowedips = true } ∷ [];
      interface_address = codes "a";
      requests = 1;
      allocated = 1;
      freed = 0;
    })
unfolding is_space atoi
settings_read_example =
    settings_read ext (λ n. true) key key (codes "51820") (codes "a") key key (text_of 32)
      (refl, refl)
      (
        (omega arith, refl, omega arith),
        (
          (omega arith, refl, omega arith),
          (
            (omega arith, refl, omega arith),
            ((omega arith, refl, omega arith), ((omega arith, refl, omega arith), tt)),
          ),
        ),
      )
      (text_of 1) (text_of 32) (refl, refl) refl

-- The blocks that were allocated and freed, for an address that is rejected.
peer_left :
    let r =
      wgctl_load_static_config ext
        (λ n. true)
        (codes "wg0")
        (some (codes "[Interface]\nAddress=x\n[Peer]\n"))
        [] in
    (r.allocated ≡ 1) × (r.freed ≡ 0)
unfolding wgctl_load_static_config loaded configured all_address_chars load_conf_lines
    load_conf_line load_section load_value load_interface conf_value to_line_end lower go_on
    fgets_all to_nul trim trim_end skip_space str_eq after before is_digit
peer_left = (refl, refl)
