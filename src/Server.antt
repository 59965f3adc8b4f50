-- ===== src/Server.antt =====
-- The server's state as its components share it, what one request meets from outside, and what it
-- answers. The fields of `Calls` are the results of the calls that a request makes to the clock, to
-- SQLite and to the random generator; each call site has its own.
use wg_auth.Base.{ℕ, Bool, List, Option, Bytes, String}
use wg_auth.Db.{Db, Run}
use wg_auth.IpPool.{Pool}
use wg_auth.RateLimit.{Table}

pub record Server (K : Type 0) : Type 0 where
  pub pool : Pool
  pub db : Db
  -- The kernel's WireGuard interfaces.
  pub kernel : K
  pub fails : Table
  -- server_pubkey, once it is loaded.
  pub server_pubkey : Option Bytes

pub record Calls : Type 0 where
  -- time(NULL): in check_rate_limit, record_login_failure, db_count_active_sessions,
  -- db_create_session, for expires_at, in db_log_audit, and in the handlers of a session.
  pub limit_time : ℕ
  pub failure_time : ℕ
  pub count_time : ℕ
  pub insert_time : ℕ
  pub expiry_time : ℕ
  pub audit_time : ℕ
  pub check_time : ℕ
  -- SQLite: the SELECT of an account or a session, the COUNT, the INSERT, the UPDATE, the audit
  -- row.
  pub select_run : Run
  pub count_run : Run
  pub insert_run : Run
  pub update_run : Run
  pub audit_run : Run
  -- randombytes_buf, for the private key, the preshared key and the token.
  pub key_random : Bytes
  pub psk_random : Bytes
  pub token_random : Bytes
  -- cJSON_PrintUnformatted has the memory that it needs.
  pub printed : Bool

-- A member of a JSON object.
pub data Value : Type 0 where
  string : Bytes → Value
  number : ℕ → Value

abbrev pub Fields : Type 0
Fields = List (String × Value)

-- What the handler returns to libmicrohttpd: a queued response, or MHD_NO, on which the connection
-- is closed. `fault` is a read through a null pointer.
pub data Reply : Type 0 where
  respond : ℕ → Fields → Reply
  closed : Reply
  fault : Reply
