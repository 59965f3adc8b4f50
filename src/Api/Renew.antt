-- ===== src/Api/Renew.antt =====
-- handle_renew.
pub mod Laws
pub mod Outcome
use wg_auth.Base.{
  ℕ, ◌+◌, true, false, not, [], ◌∷◌, Bytes, codes, ltb, ◌==◌, if◌then◌else◌, inl, inr,
}
use wg_auth.Api.{send_json_response, send_error, session_of_body}
use wg_auth.Config.{ServerConfig}
use wg_auth.Db.{Session, db_update_session_expiry, db_log_audit}
use wg_auth.External.{External}
use wg_auth.Server.{Server, Calls, string, number, Reply}

module _ {K : Type 0} (ext : External K) (cfg : ServerConfig) (calls : Calls) where
  -- The new expiry is written; neither result is looked at.
  unfoldable pub extend_session : Session → Server K → Server K
  extend_session sess st =
      let expires_at : ℕ = calls.check_time + cfg.session_default_ttl_seconds in
      let extended = (db_update_session_expiry calls.update_run sess.id expires_at st.db).0 in
      record st {
        db =
            (db_log_audit calls.audit_run calls.audit_time sess.account_id (codes "renew")
              sess.allowed_ip extended).0;
      }

  unfoldable pub renew_session : Session → Server K → Server K × Reply
  renew_session sess st =
      if not (sess.revoked == 0)
      then (st, send_error calls "Session revoked" 403)
      else if ltb (sess.expires_at + cfg.session_renew_grace_seconds) calls.check_time
      then (st, send_error calls "Session expired beyond grace period" 403)
      else (
        extend_session sess st,
        send_json_response calls
            (("status", string (codes "ok"))
              ∷ ("expires_at", number (calls.check_time + cfg.session_default_ttl_seconds))
              ∷ [])
            200,
      )

  unfoldable pub handle_renew : Bytes → Server K → Server K × Reply
  handle_renew body st = elim (session_of_body ext calls body st.db) [
    | inr reply ↦ (st, reply)
    | inl sess ↦ renew_session sess st
  ]
