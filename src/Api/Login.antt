-- ===== src/Api/Login.antt =====
-- handle_login, one function for each stretch between its early returns that the theorems speak of.
pub mod Paths
pub mod Grant
pub mod Complete
pub mod Outcome
use wg_auth.Base.{
  ℕ, ◌+◌, Bool, true, false, not, List, [], ◌∷◌, Option, none, some, Bytes, codes, leb, ◌==◌,
  if◌then◌else◌, strncpy, Rc, success, failure,
}
use wg_auth.Api.{ClientAddress, get_client_ip, send_json_response, send_error, valuestring}
use wg_auth.Auth.{
  auth_verify_password, auth_generate_keypair, auth_generate_token, auth_generate_psk,
}
use wg_auth.Config.{ServerConfig}
use wg_auth.Db.{
  Db, Account, db_get_account_by_username, db_count_active_sessions, db_create_session,
  db_log_audit,
}
use wg_auth.External.{External, Item, text, other, JsonObject}
use wg_auth.IpPool.{Pool, ip_pool_allocate, ip_pool_release}
use wg_auth.RateLimit.{check_rate_limit, record_login_failure}
use wg_auth.Server.{Server, Calls, Value, string, number, Fields, Reply, closed, fault}
use wg_auth.WgCtl.{wgctl_add_peer, wgctl_remove_peer}

abbrev pub max_sessions : ℕ
max_sessions = 5

module _ {K : Type 0} (ext : External K) (cfg : ServerConfig) (calls : Calls) where
  -- The response to a login that has succeeded.
  abbrev pub login_fields : Bytes → Bytes → Bytes → Option Bytes → ℕ → Fields
  login_fields token private_key ip server_key expires_at =
      ("session_token", string token)
      ∷ ("client_private_key", string (ext.to_base64 private_key))
      ∷ ("client_address", string ip)
      ∷ (
        "server_public_key",
        string (elim server_key [ none ↦ codes "<UNKNOWN>" | some key ↦ ext.to_base64 key ]),
      )
      ∷ ("preshared_key", string (ext.to_base64 (auth_generate_psk calls.psk_random)))
      ∷ ("endpoint", string cfg.endpoint_public_addr)
      ∷ ("allowed_ips", string cfg.ip_pool_cidr)
      ∷ ("dns", string cfg.dns)
      ∷ ("expires_at", number expires_at)
      ∷ []

  -- db_create_session has answered: the way back, or the audit row and the response.
  unfoldable pub login_stored :
      Account → Bytes → Bytes → Bytes → Bytes → ℕ → Server K → Db × Rc → Server K × Reply
  login_stored acc public_key private_key ip token expires_at st (db, failure) = (
    record st {
      db = db;
      kernel = (wgctl_remove_peer ext.wg cfg.wg_interface public_key st.kernel).0;
      pool = (ip_pool_release ext.net ip st.pool).0;
    },
    send_error calls "Failed to create session in DB" 500,
  )
  login_stored acc public_key private_key ip token expires_at st (db, success) = (
    record st {
      db = (db_log_audit calls.audit_run calls.audit_time acc.id (codes "login") ip db).0;
    },
    send_json_response calls (login_fields token private_key ip st.server_pubkey expires_at) 200,
  )

  -- The peer is set: the token and the row.
  unfoldable pub login_store : Account → Bytes → Bytes → Bytes → Server K → Server K × Reply
  login_store acc public_key private_key ip st =
      let token = auth_generate_token ext calls.token_random in
      let expires_at : ℕ = calls.expiry_time + cfg.session_default_ttl_seconds in
      login_stored acc public_key private_key ip token expires_at st (
        db_create_session calls.insert_run calls.insert_time acc.id (ext.to_base64 public_key) ip
          token expires_at st.db)

  -- wgctl_add_peer has answered.
  unfoldable pub login_peered :
      Account → Bytes → Bytes → Bytes → Server K → K × Rc → Server K × Reply
  login_peered acc public_key private_key ip st (kernel, failure) = (
    record st { kernel = kernel; pool = (ip_pool_release ext.net ip st.pool).0 },
    send_error calls "Failed to add peer to wg interface" 500,
  )
  login_peered acc public_key private_key ip st (kernel, success) =
      login_store acc public_key private_key ip (record st { kernel = kernel })

  -- ip_pool_allocate has answered.
  unfoldable pub login_allocated :
      Account → Bytes → Bytes → Server K → Pool × Option Bytes → Server K × Reply
  login_allocated acc public_key private_key st (pool, none) =
      (record st { pool = pool }, send_error calls "IP pool exhausted" 503)
  login_allocated acc public_key private_key st (pool, some ip) =
      login_peered acc public_key private_key ip (record st { pool = pool })
        (wgctl_add_peer ext.net ext.wg cfg.wg_interface public_key
          (some (auth_generate_psk calls.psk_random)) ip st.kernel)

  -- The account may have a session: keys, an address and a peer.
  unfoldable pub login_grant : Account → Server K → Server K × Reply
  login_grant acc st =
      let (public_key, private_key, _) = auth_generate_keypair ext calls.key_random in
      login_allocated acc public_key private_key st (ip_pool_allocate ext.net 32 st.pool)

  -- The password is right.
  unfoldable pub login_session : Account → Server K → Server K × Reply
  login_session acc st =
      if leb max_sessions (db_count_active_sessions calls.count_run calls.count_time acc.id st.db)
      then (st, send_error calls "Too many active sessions" 429)
      else login_grant acc st

  -- record_login_failure and the one message for every wrong credential.
  unfoldable pub refuse : Bytes → Server K → Server K × Reply
  refuse client_ip st = (
    record st { fails = record_login_failure calls.failure_time client_ip st.fails },
    send_error calls "Invalid credentials" 401,
  )

  -- strlen(NULL), where the password is no string.
  unfoldable pub login_password : Bytes → Account → Item → Server K → Server K × Reply
  login_password client_ip acc other st = (st, fault)
  login_password client_ip acc (text password) st =
      elim (auth_verify_password ext acc.password_hash password) [
        | failure ↦ refuse client_ip st
        | success ↦ login_session acc st
      ]

  unfoldable pub login_account : Bytes → Item → Item → Server K → Server K × Reply
  login_account client_ip user password st =
      elim (db_get_account_by_username calls.select_run (valuestring user) st.db) [
        | none ↦ refuse client_ip st
        | some acc ↦
            if not (acc.disabled == 0)
            then refuse client_ip st
            else login_password client_ip acc password st
      ]

  unfoldable pub login_object : Bytes → JsonObject → Server K → Server K × Reply
  login_object client_ip json st = elim (json "username") [
    | none ↦ (st, send_error calls "Missing username or password" 400)
    | some user ↦ elim (json "password") [
      | none ↦ (st, send_error calls "Missing username or password" 400)
      | some password ↦ login_account client_ip user password st
    ]
  ]

  unfoldable pub handle_login : ClientAddress → Bytes → Server K → Server K × Reply
  handle_login address body st =
      let client_ip = get_client_ip ext.net address in
      let (limited, fails) = check_rate_limit calls.limit_time client_ip st.fails in
      let checked = record st { fails = fails } in
      if limited
      then (checked, send_error calls "Too many failed attempts, try again later" 429)
      else elim (ext.parse_json body) [
        | none ↦ (checked, closed)
        | some json ↦ login_object client_ip json checked
      ]
