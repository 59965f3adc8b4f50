-- ===== src/AddUser.antt =====
-- server/src/add_user.c: vpn-add-user, which creates an account.
pub mod Laws
pub mod Login
use wg_auth.Base.{
  ℕ, Bool, true, false, ◌||◌, not, List, [], ◌∷◌, Option, none, some, Bytes, codes, str_eq, Rc,
  success, failure, if◌then◌else◌,
}
use wg_auth.Auth.{auth_hash_password}
use wg_auth.Config.Load.{load_config}
use wg_auth.Config.{ServerConfig, default_config}
use wg_auth.Db.Init.{path_or_default}
use wg_auth.Db.{Db, Run, db_create_account}
use wg_auth.External.{External}

-- A static g_config that no load_config has set.
abbrev pub zeroed_config : ServerConfig
zeroed_config = record {
  wg_interface = [];
  wg_conf_path = [];
  endpoint_public_addr = [];
  dns = [];
  api_listen_addr = [];
  api_listen_port = 0;
  tls_cert = [];
  tls_key = [];
  db_path = [];
  ip_pool_cidr = [];
  ip_pool_exclude = [];
  session_default_ttl_seconds = 0;
  session_renew_grace_seconds = 0;
  session_reap_interval_seconds = 0;
  argon2_time_cost = 0;
  argon2_mem_cost_kb = 0;
}

-- The loop over argv[1] and on: the username and the path. `none` is the usage message.
unfoldable pub parse_args :
    List Bytes → Option Bytes → Option Bytes → Option (Option Bytes × Option Bytes)
parse_args [] username db_path = some (username, db_path)
parse_args (arg ∷ []) none db_path = some (some arg, db_path)
parse_args (arg ∷ []) (some username) db_path = none
parse_args (arg ∷ next ∷ args) username db_path = elim (str_eq arg (codes "--db")) [
  | true ↦ parse_args args username (some next)
  | false ↦ elim username [ none ↦ parse_args (next ∷ args) (some arg) db_path | some name ↦ none ]
]

-- What the program meets: authd.conf, whether sodium_init succeeds, what getpass returns, the
-- tables of each path if db_init opens them, the fate of the INSERT, and the clock.
pub record Terminal : Type 0 where
  pub conf : Option Bytes
  pub sodium_ready : Bool
  pub password : Option Bytes
  pub opened : Bytes → Option Db
  pub insert_run : Run
  pub insert_time : ℕ

-- g_config, and the path of the tables. The file is read only without --db.
unfoldable pub choose_path : Terminal → Option Bytes → ServerConfig × Bytes
choose_path t (some path) = (zeroed_config, path)
choose_path t none = let cfg = (load_config t.conf).0 in (cfg, path_or_default cfg.db_path)

-- The exit status, with the path and the tables where they have changed.
pub data Exit : Type 0 where
  failed : Exit
  created : Bytes → Db → Exit

abbrev pub exit_of : Bytes → Db × Rc → Exit
exit_of path (db, success) = created path db
exit_of path (db, failure) = failed

module _ {K : Type 0} (ext : External K) (t : Terminal) where
  -- The password has been read.
  unfoldable pub create : ServerConfig → Bytes → Bytes → Bytes → Exit
  create cfg path username password = elim (t.opened path) [
    | none ↦ failed
    | some db ↦ elim (auth_hash_password ext cfg password) [
      | none ↦ failed
      | some hash ↦ exit_of path (db_create_account t.insert_run t.insert_time username hash db)
    ]
  ]

  -- getpass returns NULL, or a password that may be empty.
  unfoldable pub with_password : ServerConfig → Bytes → Bytes → Option Bytes → Exit
  with_password cfg path username none = failed
  with_password cfg path username (some []) = failed
  with_password cfg path username (some (c ∷ password)) = create cfg path username (c ∷ password)

  unfoldable pub add_user : List Bytes → Exit
  add_user args = elim (parse_args args none none) [
    | none ↦ failed
    | some parsed ↦ elim parsed.0 [
      | none ↦ failed
      | some username ↦
          let (cfg, path) = choose_path t parsed.1 in
          if t.sodium_ready then with_password cfg path username t.password else failed
    ]
  ]
