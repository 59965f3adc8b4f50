-- ===== src/Api/Logout.antt =====
-- handle_logout.
pub mod Laws
pub mod Outcome
use wg_auth.Base.{
  ℕ, true, false, not, [], ◌∷◌, Option, none, some, Bytes, codes, ltb, ◌==◌, if◌then◌else◌, inl,
  inr,
}
use wg_auth.Api.{send_json_response, send_error, session_of_body, device_key}
use wg_auth.Config.{ServerConfig}
use wg_auth.Db.{Session, db_revoke_session, db_log_audit}
use wg_auth.External.{External}
use wg_auth.IpPool.{ip_pool_release}
use wg_auth.Server.{Server, Calls, string, Reply}
use wg_auth.WgCtl.{wgctl_remove_peer}

module _ {K : Type 0} (ext : External K) (cfg : ServerConfig) (calls : Calls) where
  -- The session ends: its peer, its address and its row. No result is looked at.
  unfoldable pub end_session : Session → Bytes → Server K → Server K
  end_session sess key st =
      let revoked = (db_revoke_session calls.update_run sess.id st.db).0 in
      record st {
        kernel = (wgctl_remove_peer ext.wg cfg.wg_interface key st.kernel).0;
        pool = (ip_pool_release ext.net sess.allowed_ip st.pool).0;
        db =
            (db_log_audit calls.audit_run calls.audit_time sess.account_id (codes "logout")
              sess.allowed_ip revoked).0;
      }

  unfoldable pub logout_session : Session → Server K → Server K × Reply
  logout_session sess st =
      if not (sess.revoked == 0)
      then (st, send_error calls "Session already revoked" 409)
      else if ltb sess.expires_at calls.check_time
      then (st, send_error calls "Session expired" 401)
      else elim (device_key ext sess) [
        | none ↦ (st, send_error calls "Invalid device pubkey in session" 500)
        | some key ↦ (
          end_session sess key st,
          send_json_response calls (("status", string (codes "ok")) ∷ []) 200,
        )
      ]

  unfoldable pub handle_logout : Bytes → Server K → Server K × Reply
  handle_logout body st = elim (session_of_body ext calls body st.db) [
    | inr reply ↦ (st, reply)
    | inl sess ↦ logout_session sess st
  ]
