-- ===== src/Api/Renew/Outcome.antt =====
-- What a renewal leaves.
use wg_auth.Base.{ℕ, ◌+◌, ◌≡◌, ◌⊎◌, refl, inl, inr, Bytes, codes}
use wg_auth.Api.Renew.Laws.{MayRenew, renewed_fields, handle_renew_cases}
use wg_auth.Api.Renew.{extend_session, handle_renew}
use wg_auth.Api.Replies.{Untouched}
use wg_auth.Api.Written.{Written, update-Written}
use wg_auth.Api.{send_json_response}
use wg_auth.Config.{ServerConfig}
use wg_auth.Db.Rows.{db_log_audit-sessions}
use wg_auth.Db.{Session, set_expiry, db_update_session_expiry}
use wg_auth.External.{External}
use wg_auth.Server.{Server, Calls}

module _ {K : Type 0} (ext : External K) (cfg : ServerConfig) (calls : Calls) where
  -- The row has the new expiry, or is as it was where the UPDATE fails; the peers, the pool and the
  -- rate limiter are as they were.
  pub record Renewed (token : Bytes) (sess row : Session) (until : ℕ) (st st' : Server K)
      : Type 0 where
    pub kernel : st'.kernel ≡ st.kernel
    pub pool : st'.pool ≡ st.pool
    pub fails : st'.fails ≡ st.fails
    pub written :
        Written calls.update_run token
          (record row { expires_at = until })
          sess.id
          st.db.sessions
          st'.db.sessions

  pub extend_session-Renewed :
      (body : Bytes) (sess : Session) (st : Server K) (may : MayRenew ext cfg calls body st.db sess)
      → Renewed may.token sess may.row.row
          (calls.check_time + cfg.session_default_ttl_seconds)
          st
          (extend_session ext cfg calls sess st)
  unfolding extend_session db_update_session_expiry
  extend_session-Renewed body sess st may =
      let until = calls.check_time + cfg.session_default_ttl_seconds in
      let audited =
        db_log_audit-sessions calls.audit_run calls.audit_time sess.account_id (codes "renew")
          sess.allowed_ip (db_update_session_expiry calls.update_run sess.id until st.db).0 in
      record {
        kernel = refl;
        pool = refl;
        fails = refl;
        written = rw audited.0 (
            update-Written (set_expiry until) calls.update_run may.token st.db sess (λ s. refl)
              (λ s. refl) may.row);
      }

  -- A renewal either changes nothing and its status is not 200; or its request carries the token of
  -- a session that is not revoked and is at most the grace period past its expiry. Then it answers
  -- 200, where it has the memory, with the default time to live from the clock on, and changes
  -- neither peers nor addresses; the session's row has that expiry and the others are left, or,
  -- where SQLite fails with the UPDATE, the rows are as they were.
  pub handle_renew_outcome :
      (body : Bytes) (st : Server K)
      → Untouched (handle_renew ext cfg calls body st) st
        ⊎ ((sess : Session) × (may : MayRenew ext cfg calls body st.db sess) × Renewed may.token
              sess may.row.row
              (calls.check_time + cfg.session_default_ttl_seconds)
              st
              (handle_renew ext cfg calls body st).0
            × ((handle_renew ext cfg calls body st).1
                ≡ send_json_response calls
                    (renewed_fields (calls.check_time + cfg.session_default_ttl_seconds))
                    200))
  handle_renew_outcome body st = elim (handle_renew_cases ext cfg calls body st) [
    | inl same ↦ inl same
    | inr (sess, may, e) ↦
        inr (sess, may, rw e (extend_session-Renewed body sess st may), rw e refl)
  ]
