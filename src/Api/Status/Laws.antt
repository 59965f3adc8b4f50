-- ===== src/Api/Status/Laws.antt =====
-- A status report: whom it is given to, and what it says.
use wg_auth.Base.{
  ◌≤◌, ◌≡◌, refl, ap, inl, inr, Option, none, some, Bytes, Option-cases, Bool-cases, Sum-cases,
  arith, ltb, ◌==◌, ==_iff, codes, ◌++◌, [], ◌∷◌,
}
use wg_auth.Api.Lookup.{IsRowOf, session_of_token-IsRowOf}
use wg_auth.Api.Replies.{status_of, send_error_status, session_of_token-refusal}
use wg_auth.Api.Status.{
  strip_prefix, bearer_token, status_fields, peer_stats, status_session, handle_status,
}
use wg_auth.Api.{session_of_token, send_json_response}
use wg_auth.Config.{ServerConfig}
use wg_auth.Db.{Session}
use wg_auth.External.{External}
use wg_auth.Server.{Server, Calls}

strip_prefix_sound :
    (prefix s rest : Bytes) → strip_prefix prefix s ≡ some rest → s ≡ prefix ++ rest
unfolding strip_prefix
strip_prefix_sound [] s rest e = cc
strip_prefix_sound (c ∷ prefix) [] rest e = cc
strip_prefix_sound (c ∷ prefix) (d ∷ s) rest e = ground (arith, strip_prefix_sound prefix s rest)

-- The header is "Bearer " and the token.
bearer_token_sound :
    (header : Option Bytes) (token : Bytes)
    → bearer_token header ≡ some token
    → header ≡ some (codes "Bearer " ++ token)
unfolding bearer_token
bearer_token_sound none token e = cc
bearer_token_sound (some auth) token e = elim (Option-cases (strip_prefix (codes "Bearer ") auth)) [
  | inl other_scheme ↦ cc (rw (bearer_token, other_scheme) at e)
  | inr (rest, stripped) ↦ ap some (
      strip_prefix_sound (codes "Bearer ") auth token
        (whole rest stripped (rw (bearer_token, stripped) at e)))
]
  where
    whole :
        (rest : Bytes)
        → strip_prefix (codes "Bearer ") auth ≡ some rest
        → elim rest [ [] ↦ none | c ∷ token' ↦ some (c ∷ token') ] ≡ some token
        → strip_prefix (codes "Bearer ") auth ≡ some token
    whole [] stripped e' = cc
    whole (c ∷ rest) stripped e' = cc

module _ {K : Type 0} (ext : External K) (cfg : ServerConfig) (calls : Calls) where
  status_session_sound :
      (sess : Session) (st : Server K)
      → status_of (status_session ext cfg calls sess st) ≡ some 200
      → (sess.revoked ≡ 0)
        × (calls.check_time ≤ sess.expires_at)
        × (status_session ext cfg calls sess st
            ≡ send_json_response calls (status_fields sess (peer_stats ext cfg calls sess st)) 200)
  unfolding status_session
  status_session_sound sess st ok = elim (Bool-cases (sess.revoked == 0)) [
    | inr gone ↦ absurd (
        send_error_status calls "Session revoked" 403 (omega arith)
          (rw (status_session, gone) at ok))
    | inl live ↦ elim (Bool-cases (ltb sess.expires_at calls.check_time)) [
      | inl late ↦ absurd (
          send_error_status calls "Session expired" 403 (omega arith)
            (rw (status_session, live, late) at ok))
      | inr time ↦ (
        (==_iff sess.revoked 0).0 live,
        ground (arith, time),
        rw (status_session, live, time) refl,
      )
    ]
  ]

  -- A status request that is answered with 200 has the header "Bearer " and the token of a session
  -- that is neither revoked nor expired, and the answer gives that session's address, its expiry
  -- and the counters of its peer.
  pub handle_status_sound :
      (header : Option Bytes) (st : Server K)
      → status_of (handle_status ext cfg calls header st) ≡ some 200
      → (token : Bytes) × (sess : Session) × (header ≡ some (codes "Bearer " ++ token))
        × IsRowOf token st.db sess
        × (sess.revoked ≡ 0)
        × (calls.check_time ≤ sess.expires_at)
        × (handle_status ext cfg calls header st
            ≡ send_json_response calls (status_fields sess (peer_stats ext cfg calls sess st)) 200)
  unfolding handle_status
  handle_status_sound header st ok = elim (Option-cases (bearer_token header)) [
    | inl missing ↦ absurd (
        send_error_status calls "Missing token" 401 (omega arith)
          (rw (handle_status, missing) at ok))
    | inr (token, carried) ↦ elim (Sum-cases (session_of_token calls token st.db)) [
      | inr (reply, e) ↦ absurd (
          session_of_token-refusal calls token st.db reply e (rw (handle_status, carried, e) at ok))
      | inl (sess, e) ↦
          let (live, time, told) =
            status_session_sound sess st (rw (handle_status, carried, e) at ok) in
          (
            token,
            sess,
            bearer_token_sound header token carried,
            session_of_token-IsRowOf calls token st.db sess e,
            live,
            time,
            rw (handle_status, carried, e) told,
          )
    ]
  ]
