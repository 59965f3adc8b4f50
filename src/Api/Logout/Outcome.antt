-- ===== src/Api/Logout/Outcome.antt =====
-- What a logout leaves.
use wg_auth.Base.{◌≡◌, ◌⊎◌, refl, inl, inr, [], ◌∷◌, Bytes, codes}
use wg_auth.Api.Logout.Laws.{MayLogout, handle_logout_cases}
use wg_auth.Api.Logout.{end_session, handle_logout}
use wg_auth.Api.Replies.{Untouched}
use wg_auth.Api.Written.{Written, update-Written}
use wg_auth.Api.{send_json_response}
use wg_auth.Config.{ServerConfig}
use wg_auth.Db.Rows.{db_log_audit-sessions}
use wg_auth.Db.{Session, set_revoked, db_revoke_session}
use wg_auth.External.{External}
use wg_auth.IpPool.{ip_pool_release}
use wg_auth.Server.{Server, Calls, string}
use wg_auth.WgCtl.{wgctl_remove_peer}

module _ {K : Type 0} (ext : External K) (cfg : ServerConfig) (calls : Calls) where
  -- The peer with the session's key is removed, its address released, and its row revoked, or not
  -- where the UPDATE fails; the rate limiter is as it was.
  pub record LoggedOut (token : Bytes) (sess row : Session) (key : Bytes) (st st' : Server K)
      : Type 0 where
    pub peer : st'.kernel ≡ (wgctl_remove_peer ext.wg cfg.wg_interface key st.kernel).0
    pub address : st'.pool ≡ (ip_pool_release ext.net sess.allowed_ip st.pool).0
    pub fails : st'.fails ≡ st.fails
    pub written :
        Written calls.update_run token
          (record row { revoked = 1 })
          sess.id
          st.db.sessions
          st'.db.sessions

  -- A logout either changes nothing and its status is not 200; or its request carries the token of
  -- a session that is neither revoked nor expired, with a key that decodes. Then it removes the
  -- peer with that key and releases the session's address, and answers 200, where it has the
  -- memory; the session's row is revoked and the others are left, or, where SQLite fails with the
  -- UPDATE, the rows are as they were.
  pub handle_logout_outcome :
      (body : Bytes) (st : Server K)
      → Untouched (handle_logout ext cfg calls body st) st
        ⊎ ((sess : Session) × (key : Bytes) × (may : MayLogout ext cfg calls body st.db sess key)
            × LoggedOut may.token sess may.row.row key st (handle_logout ext cfg calls body st).0
            × ((handle_logout ext cfg calls body st).1
                ≡ send_json_response calls (("status", string (codes "ok")) ∷ []) 200))
  unfolding end_session db_revoke_session
  handle_logout_outcome body st = elim (handle_logout_cases ext cfg calls body st) [
    | inl same ↦ inl same
    | inr (sess, key, may, e) ↦
        let audited =
          db_log_audit-sessions calls.audit_run calls.audit_time sess.account_id (codes "logout")
            sess.allowed_ip (db_revoke_session calls.update_run sess.id st.db).0 in
        inr (
          sess,
          key,
          may,
          rw e (record {
            peer = refl;
            address = refl;
            fails = refl;
            written = rw audited.0 (
                update-Written set_revoked calls.update_run may.token st.db sess (λ s. refl)
                  (λ s. refl) may.row);
          }),
          rw e refl,
        )
  ]
