-- ===== src/Api/Logout/Laws.antt =====
-- A logout: what it needs, what it changes, and that the leases stay exclusive.
use wg_auth.Base.{
  ◌≤◌, ◌≡◌, refl, ap, ◌⊎◌, inl, inr, [], ◌∷◌, some, Bytes, Option-cases, Bool-cases, Sum-cases,
  arith, ltb, ◌==◌, ==_iff, strncpy, codes,
}
use wg_auth.Api.Logout.{end_session, logout_session, handle_logout}
use wg_auth.Api.Replies.{Untouched, send_error_status, session_of_body-refusal}
use wg_auth.Api.Lookup.{IsRowOf, session_of_body-IsRowOf}
use wg_auth.Api.{session_of_body, device_key, send_json_response}
use wg_auth.Config.{ServerConfig}
use wg_auth.Db.Rows.{db_log_audit-sessions}
use wg_auth.Db.{Db, Session, runs, db_revoke_session}
use wg_auth.External.{External, InetLaws, JsonObject, text}
use wg_auth.Leases.Steps.{end-IsExclusive}
use wg_auth.Leases.{IsExclusive}
use wg_auth.Server.{Server, Calls, string}

module _ {K : Type 0} (ext : External K) (cfg : ServerConfig) (calls : Calls) where
  -- The request carries the token of a live session whose key decodes.
  pub record MayLogout (body : Bytes) (db : Db) (sess : Session) (key : Bytes) : Type 0 where
    pub json : JsonObject
    pub token : Bytes
    pub parsed : ext.parse_json body ≡ some json
    pub carried : json "session_token" ≡ some (text token)
    pub row : IsRowOf token db sess
    pub live : sess.revoked ≡ 0
    pub in_time : calls.check_time ≤ sess.expires_at
    pub key_decodes : device_key ext sess ≡ some key

  logout_session_cases :
      (sess : Session) (st : Server K)
      → Untouched (logout_session ext cfg calls sess st) st
        ⊎ ((key : Bytes) × (sess.revoked ≡ 0)
            × (calls.check_time ≤ sess.expires_at)
            × (device_key ext sess ≡ some key)
            × (logout_session ext cfg calls sess st ≡ (
              end_session ext cfg calls sess key st,
              send_json_response calls (("status", string (codes "ok")) ∷ []) 200,
            )))
  unfolding logout_session
  logout_session_cases sess st = elim (Bool-cases (sess.revoked == 0)) [
    | inr gone ↦ inl (
        rw (logout_session, gone)
          (refl, send_error_status calls "Session already revoked" 409 (omega arith)))
    | inl live ↦ elim (Bool-cases (ltb sess.expires_at calls.check_time)) [
      | inl late ↦ inl (
          rw (logout_session, live, late)
            (refl, send_error_status calls "Session expired" 401 (omega arith)))
      | inr time ↦ elim (Option-cases (device_key ext sess)) [
        | inl bad ↦ inl (
            rw (logout_session, live, time, bad)
              (refl, send_error_status calls "Invalid device pubkey in session" 500 (omega arith)))
        | inr (key, good) ↦ inr (
          key,
          (==_iff sess.revoked 0).0 live,
          ground (arith, time),
          good,
          rw (logout_session, live, time, good),
        )
      ]
    ]
  ]

  -- A logout either changes nothing and its status is not 200, or its request carries the token of
  -- a session that is neither revoked nor expired, with a key that decodes, and then it ends that
  -- session and says so.
  pub handle_logout_cases :
      (body : Bytes) (st : Server K)
      → Untouched (handle_logout ext cfg calls body st) st
        ⊎ ((sess : Session) × (key : Bytes) × MayLogout body st.db sess key
            × (handle_logout ext cfg calls body st ≡ (
              end_session ext cfg calls sess key st,
              send_json_response calls (("status", string (codes "ok")) ∷ []) 200,
            )))
  unfolding handle_logout
  handle_logout_cases body st = elim (Sum-cases (session_of_body ext calls body st.db)) [
    | inr (reply, e) ↦
        inl (rw (handle_logout, e) (refl, session_of_body-refusal ext calls body st.db reply e))
    | inl (sess, e) ↦ elim (logout_session_cases sess st) [
      | inl same ↦ inl (rw (handle_logout, e) same)
      | inr (key, live, time, good, done) ↦
          let (json, token, parsed, carried, row) =
            session_of_body-IsRowOf ext calls body st.db sess e in
          inr (
            sess,
            key,
            record {
              json = json;
              token = token;
              parsed = parsed;
              carried = carried;
              row = row;
              live = live;
              in_time = time;
              key_decodes = good;
            },
            rw (handle_logout, e) done,
          )
    ]
  ]

  end_session-IsExclusive :
      (laws : InetLaws ext.net) (token : Bytes) (sess : Session) (key : Bytes) (st : Server K)
      → calls.update_run ≡ runs
      → IsRowOf token st.db sess
      → sess.revoked ≡ 0
      → IsExclusive ext.net st.pool st.db
      → IsExclusive ext.net
          (end_session ext cfg calls sess key st).pool
          (end_session ext cfg calls sess key st).db
  unfolding end_session db_revoke_session
  end_session-IsExclusive laws token sess key st run row live x =
      let audited =
        db_log_audit-sessions calls.audit_run calls.audit_time row.row.account_id (codes "logout")
          (strncpy 32 row.row.allowed_ip) (db_revoke_session runs row.row.id st.db).0 in
      rw (row.copied, run)
        (end-IsExclusive ext.net laws st.pool st.db _ row.row row.has
          (ground (arith, ap (λ s. s.revoked) row.copied)) audited.0 audited.1 x)

  -- A logout keeps the leases exclusive, provided that SQLite runs the UPDATE of a session.
  pub handle_logout-IsExclusive :
      (laws : InetLaws ext.net) (body : Bytes) (st : Server K)
      → calls.update_run ≡ runs
      → IsExclusive ext.net st.pool st.db
      → IsExclusive ext.net
          (handle_logout ext cfg calls body st).0.pool
          (handle_logout ext cfg calls body st).0.db
  handle_logout-IsExclusive laws body st run x = elim (handle_logout_cases body st) [
    | inl same ↦ rw same.0 x
    | inr (sess, key, may, e) ↦
        rw e (end_session-IsExclusive laws may.token sess key st run may.row may.live x)
  ]
