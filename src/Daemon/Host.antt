-- ===== src/Daemon/Host.antt =====
-- server/src/main.c: the start from the files, the tables and the interfaces of the host.
pub mod Begin
use wg_auth.Base.{
  ℕ, ◌≡◌, refl, sym, ◌∙◌, ap, subst, Bool, true, false, ◌&&◌, not, List, Option, none, some,
  some_injective, Bytes, Rc, success, failure, Bool-cases, Option-cases, inl, inr,
}
use wg_auth.Api.Listener.{Files, Listener, Serves, api_start, api_start-Serves}
use wg_auth.Config.Bounds.{IsValid, load_config-IsValid}
use wg_auth.Config.Load.{load_config}
use wg_auth.Config.{ServerConfig}
use wg_auth.Daemon.{Boot, start, start_pooled, pool_cidr, Reachable, starts}
use wg_auth.Db.Init.{Tables, Opening, db_init, db_init_keeps, db_of, stored_db, path_or_default}
use wg_auth.Db.Rows.{UniqueIds, IdsBelow}
use wg_auth.Db.{Db, Run, runs, db_revoke_all_active_sessions}
use wg_auth.External.{External}
use wg_auth.IpPool.{Pool, blank, ip_pool_init}
use wg_auth.Server.{Server}
use wg_auth.WgCtl.StaticConfig.Apply.{wgctl_load_static_config}

-- authd.conf, the tables at each path and what SQLite does with them, the interface's file, the
-- kernel, which calls of calloc, MHD_start_daemon and pthread_create succeed, and the other files.
pub record Host (K : Type 0) : Type 0 where
  pub sodium_ready : Bool
  pub conf : Option Bytes
  pub tables : Bytes → Tables
  pub opening : Opening
  pub wg_conf : Bytes → Option Bytes
  pub memory : ℕ → Bool
  pub kernel : K
  pub revoke_run : Run
  pub files : Files
  pub api_starts : Listener → Bool
  pub reaper_starts : Bool

-- Where the file cannot be read, the defaults.
abbrev pub g_config : {K : Type 0} → Host K → ServerConfig
g_config h = (load_config h.conf).0

abbrev pub stored_tables : {K : Type 0} → Host K → Tables
stored_tables h = h.tables (path_or_default (g_config h).db_path)

unfoldable pub opened_db : Tables × Rc → Option Db
opened_db (t, success) = db_of t
opened_db (t, failure) = none

abbrev pub is_there {ℓ} : {A : Type ℓ} → Option A → Bool
is_there none = false
is_there (some a) = true

module _ {K : Type 0} (ext : External K) (h : Host K) where
  abbrev pub listening : Option Listener
  listening = api_start (g_config h) h.files h.api_starts

  -- The result of wgctl_load_static_config is not looked at.
  abbrev pub kernel_after : K
  kernel_after =
      let cfg = g_config h in
      (wgctl_load_static_config ext h.memory cfg.wg_interface (h.wg_conf cfg.wg_conf_path)
        h.kernel).kernel

  abbrev pub boot_of : Boot K
  boot_of = record {
    sodium_ready = h.sodium_ready;
    opened = opened_db (db_init h.opening (stored_tables h));
    kernel = kernel_after;
    revoke_run = h.revoke_run;
    api_starts = is_there listening;
    reaper_starts = h.reaper_starts;
  }

  -- main up to its loop; `none` is the exit with status 1.
  unfoldable pub main_start : Option (Server K × Listener)
  main_start = elim (start ext (g_config h) boot_of) [
    | none ↦ none
    | some st ↦ elim listening [ none ↦ none | some listener ↦ some (st, listener) ]
  ]
