-- ===== src/Reaper.antt =====
-- server/src/reaper.c: the thread that ends expired sessions. A pass works on the rows that one
-- SELECT returned; here no request comes between them.
pub mod Laws
pub mod Passes
use wg_auth.Base.{ℕ, ◌+◌, List, [], ◌∷◌, Option, none, some, Bytes, codes}
use wg_auth.Auth.{wg_key_len}
use wg_auth.Config.{ServerConfig}
use wg_auth.Db.{Session, Run, ListRun, db_get_expired_sessions, db_revoke_session, db_log_audit}
use wg_auth.External.{External}
use wg_auth.IpPool.{ip_pool_release}
use wg_auth.Server.{Server}
use wg_auth.WgCtl.{wgctl_remove_peer}

-- The clock and SQLite at one session of the list, and what the stack holds at `pubkey`.
pub record Reaping : Type 0 where
  pub update_run : Run
  pub audit_run : Run
  pub audit_time : ℕ
  pub stack : Bytes

-- The SELECT of a pass, its time, and the calls of each session by its place in the list.
pub record Pass : Type 0 where
  pub list_run : ListRun
  pub list_time : ℕ
  pub reaping : ℕ → Reaping

-- A buffer after the decoded bytes are written at its front.
unfoldable pub overwrite : Bytes → Bytes → Bytes
overwrite [] buffer = buffer
overwrite (b ∷ bytes) [] = b ∷ overwrite bytes []
overwrite (b ∷ bytes) (old ∷ buffer) = b ∷ overwrite bytes buffer

module _ {K : Type 0} (ext : External K) (cfg : ServerConfig) where
  -- The length of the decoded key is not looked at: a short one is followed by what was there.
  unfoldable pub remove_key : Bytes → Bytes → K → K
  remove_key stack encoded kernel = elim (ext.from_base64 wg_key_len encoded) [
    | none ↦ kernel
    | some key ↦ (wgctl_remove_peer ext.wg cfg.wg_interface (overwrite key stack) kernel).0
  ]

  unfoldable pub reap_session : Reaping → Session → Server K → Server K
  reap_session calls sess st =
      let revoked = (db_revoke_session calls.update_run sess.id st.db).0 in
      record st {
        kernel = remove_key calls.stack sess.device_pubkey st.kernel;
        pool = (ip_pool_release ext.net sess.allowed_ip st.pool).0;
        db =
            (db_log_audit calls.audit_run calls.audit_time sess.account_id (codes "expired")
              sess.allowed_ip revoked).0;
      }

  -- The sessions from the i-th of the list on.
  unfoldable pub reap_from : (ℕ → Reaping) → ℕ → List Session → Server K → Server K
  reap_from reaping i [] st = st
  reap_from reaping i (sess ∷ rest) st =
      reap_from reaping (i + 1) rest (reap_session (reaping i) sess st)

  unfoldable pub reap : Pass → Server K → Server K
  reap pass st = elim (db_get_expired_sessions pass.list_run pass.list_time st.db) [
    | none ↦ st
    | some expired ↦ reap_from pass.reaping 0 expired st
  ]

  -- The passes until stop_flag is set.
  unfoldable pub reaper_worker : List Pass → Server K → Server K
  reaper_worker [] st = st
  reaper_worker (pass ∷ passes) st = reaper_worker passes (reap pass st)
