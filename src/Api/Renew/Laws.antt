-- ===== src/Api/Renew/Laws.antt =====
-- A renewal: what it needs, what it changes, and that the leases stay exclusive.
use wg_auth.Base.{
  ℕ, ◌+◌, ◌≤◌, ◌≡◌, refl, ◌⊎◌, inl, inr, [], ◌∷◌, some, Bytes, Bool-cases, Sum-cases, arith, ltb,
  ◌==◌, ==_iff, codes,
}
use wg_auth.Api.Renew.{extend_session, renew_session, handle_renew}
use wg_auth.Api.Replies.{Untouched, send_error_status, session_of_body-refusal}
use wg_auth.Api.Lookup.{IsRowOf, session_of_body-IsRowOf}
use wg_auth.Api.{session_of_body, send_json_response}
use wg_auth.Config.{ServerConfig}
use wg_auth.Db.Rows.{db_log_audit-sessions}
use wg_auth.Db.{Db, Session, db_update_session_expiry}
use wg_auth.External.{External, JsonObject, text}
use wg_auth.Leases.Steps.{update_expiry-IsExclusive, sessions-IsExclusive}
use wg_auth.Leases.{IsExclusive}
use wg_auth.Server.{Server, Calls, Fields, string, number}

-- {"status": "ok", "expires_at": …}
abbrev pub renewed_fields : ℕ → Fields
renewed_fields expires_at = ("status", string (codes "ok")) ∷ ("expires_at", number expires_at) ∷ []

module _ {K : Type 0} (ext : External K) (cfg : ServerConfig) (calls : Calls) where
  -- The request carries the token of a session that is not revoked and whose grace period is not
  -- over.
  pub record MayRenew (body : Bytes) (db : Db) (sess : Session) : Type 0 where
    pub json : JsonObject
    pub token : Bytes
    pub parsed : ext.parse_json body ≡ some json
    pub carried : json "session_token" ≡ some (text token)
    pub row : IsRowOf token db sess
    pub live : sess.revoked ≡ 0
    pub in_grace : calls.check_time ≤ sess.expires_at + cfg.session_renew_grace_seconds

  renew_session_cases :
      (sess : Session) (st : Server K)
      → Untouched (renew_session ext cfg calls sess st) st
        ⊎ ((sess.revoked ≡ 0)
            × (calls.check_time ≤ sess.expires_at + cfg.session_renew_grace_seconds)
            × (renew_session ext cfg calls sess st ≡ (
              extend_session ext cfg calls sess st,
              send_json_response calls
                  (renewed_fields (calls.check_time + cfg.session_default_ttl_seconds))
                  200,
            )))
  unfolding renew_session
  renew_session_cases sess st = elim (Bool-cases (sess.revoked == 0)) [
    | inr gone ↦ inl (
        rw (renew_session, gone)
          (refl, send_error_status calls "Session revoked" 403 (omega arith)))
    | inl live ↦
        elim (Bool-cases
          (ltb (sess.expires_at + cfg.session_renew_grace_seconds) calls.check_time)) [
            | inl late ↦ inl (
                rw (renew_session, live, late)
                  (
                    refl,
                    send_error_status calls "Session expired beyond grace period" 403 (omega arith),
                  ))
            | inr time ↦ inr (
              (==_iff sess.revoked 0).0 live,
              ground (arith, time),
              rw (renew_session, live, time),
            )
          ]
  ]

  -- A renewal either changes nothing and its status is not 200, or its request carries the token of
  -- a session that is not revoked and is at most the grace period past its expiry; then the session
  -- is extended, and the reply tells the new expiry.
  pub handle_renew_cases :
      (body : Bytes) (st : Server K)
      → Untouched (handle_renew ext cfg calls body st) st
        ⊎ ((sess : Session) × MayRenew body st.db sess
            × (handle_renew ext cfg calls body st ≡ (
              extend_session ext cfg calls sess st,
              send_json_response calls
                  (renewed_fields (calls.check_time + cfg.session_default_ttl_seconds))
                  200,
            )))
  unfolding handle_renew
  handle_renew_cases body st = elim (Sum-cases (session_of_body ext calls body st.db)) [
    | inr (reply, e) ↦
        inl (rw (handle_renew, e) (refl, session_of_body-refusal ext calls body st.db reply e))
    | inl (sess, e) ↦ elim (renew_session_cases sess st) [
      | inl same ↦ inl (rw (handle_renew, e) same)
      | inr (live, time, done) ↦
          let (json, token, parsed, carried, row) =
            session_of_body-IsRowOf ext calls body st.db sess e in
          inr (
            sess,
            record {
              json = json;
              token = token;
              parsed = parsed;
              carried = carried;
              row = row;
              live = live;
              in_grace = time;
            },
            rw (handle_renew, e) done,
          )
    ]
  ]

  -- Extending a session sets one expiry or, if SQLite fails, none.
  extend_session-IsExclusive :
      (sess : Session) (st : Server K)
      → IsExclusive ext.net st.pool st.db
      → IsExclusive ext.net
          (extend_session ext cfg calls sess st).pool
          (extend_session ext cfg calls sess st).db
  unfolding extend_session
  extend_session-IsExclusive sess st x =
      let until = calls.check_time + cfg.session_default_ttl_seconds in
      let extended = (db_update_session_expiry calls.update_run sess.id until st.db).0 in
      let audited =
        db_log_audit-sessions calls.audit_run calls.audit_time sess.account_id (codes "renew")
          sess.allowed_ip extended in
      sessions-IsExclusive ext.net st.pool extended _ audited.0 audited.1
        (update_expiry-IsExclusive ext.net calls.update_run sess.id until st.pool st.db x)

  -- A renewal keeps the leases exclusive, also where SQLite fails.
  pub handle_renew-IsExclusive :
      (body : Bytes) (st : Server K)
      → IsExclusive ext.net st.pool st.db
      → IsExclusive ext.net
          (handle_renew ext cfg calls body st).0.pool
          (handle_renew ext cfg calls body st).0.db
  handle_renew-IsExclusive body st x = elim (handle_renew_cases body st) [
    | inl same ↦ rw same.0 x
    | inr (sess, may, e) ↦ rw e (extend_session-IsExclusive sess st x)
  ]
