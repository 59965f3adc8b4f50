-- ===== src/Daemon.antt =====
-- server/src/main.c: the start of the daemon, and the states to which its requests bring it.
-- Threads has the reaper beside them.
pub mod Safety
pub mod Threads
pub mod Host
pub mod Life
use wg_auth.Base.{
  ℕ, ◌≡◌, Bool, true, false, ◌&&◌, not, [], ◌∷◌, Option, none, some, Bytes, codes, if◌then◌else◌,
  Rc, success, failure,
}
use wg_auth.Api.Router.{Request, api_router}
use wg_auth.Config.{ServerConfig}
use wg_auth.Db.Rows.{UniqueIds, IdsBelow}
use wg_auth.Db.{Db, Run, runs, db_revoke_all_active_sessions}
use wg_auth.External.{External}
use wg_auth.IpPool.{Pool, blank, ip_pool_init}
use wg_auth.RateLimit.{blank_table}
use wg_auth.Server.{Server, Calls}
use wg_auth.WgCtl.{wgctl_get_server_pubkey}

-- What the start meets: whether sodium_init succeeds, the tables if db_init opens them, the kernel
-- as wgctl_load_static_config leaves it, SQLite at the UPDATE of all sessions, and whether
-- MHD_start_daemon and pthread_create succeed.
pub record Boot (K : Type 0) : Type 0 where
  pub sodium_ready : Bool
  pub opened : Option Db
  pub kernel : K
  pub revoke_run : Run
  pub api_starts : Bool
  pub reaper_starts : Bool

-- g_config.ip_pool_cidr[0] ? g_config.ip_pool_cidr : "10.8.1.0/23"
unfoldable pub pool_cidr : Bytes → Bytes
pool_cidr [] = codes "10.8.1.0/23"
pool_cidr (c ∷ cidr) = c ∷ cidr

module _ {K : Type 0} (ext : External K) (cfg : ServerConfig) where
  -- The state in which the first request is served: the public key of the interface is cached.
  abbrev pub fresh_server : Boot K → Pool → Db → Server K
  fresh_server boot pool db = record {
    pool = pool;
    db = db;
    kernel = boot.kernel;
    fails = blank_table;
    server_pubkey = wgctl_get_server_pubkey ext.wg cfg.wg_interface boot.kernel;
  }

  -- ip_pool_init has answered.
  unfoldable pub start_pooled : Boot K → Db → Pool × Rc → Option (Server K)
  start_pooled boot db (pool, failure) = none
  start_pooled boot db (pool, success) =
      if boot.api_starts && boot.reaper_starts
      then some (fresh_server boot pool (db_revoke_all_active_sessions boot.revoke_run db))
      else none

  -- `none` is the exit with status 1.
  unfoldable pub start : Boot K → Option (Server K)
  start boot = if not boot.sodium_ready then none else elim boot.opened [
    | none ↦ none
    | some db ↦
        start_pooled boot db
          (ip_pool_init ext.net (pool_cidr cfg.ip_pool_cidr) cfg.ip_pool_exclude blank)
  ]

  -- A request, served while the reaper ends no session. SQLite runs the UPDATE of a session; every
  -- other statement may fail.
  pub data Step : Server K → Server K → Type 0 where
    serves :
        (calls : Calls) (req : Request) (info : Option Bytes) (memory : Bool) (part : Bytes)
        (st : Server K)
        → calls.update_run ≡ runs
        → Step st (api_router ext cfg calls req info memory part st).0

  -- The states to which requests bring a daemon that has started on tables whose ids SQLite keeps
  -- apart, and has revoked their sessions.
  pub data Reachable : Server K → Type 0 where
    starts :
        (boot : Boot K) (db : Db) (st : Server K)
        → boot.opened ≡ some db
        → UniqueIds db.sessions
        → IdsBelow db.next_session db.sessions
        → boot.revoke_run ≡ runs
        → start boot ≡ some st
        → Reachable st
    steps : (st st' : Server K) → Reachable st → Step st st' → Reachable st'
