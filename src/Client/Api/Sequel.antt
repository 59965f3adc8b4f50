-- ===== src/Client/Api/Sequel.antt =====
-- The client's renewal and logout against the server's.
use wg_auth.Base.{
  ℕ, ◌+◌, ◌≡◌, ◌⊎◌, refl, ap, ◌∙◌, inl, inr, true, [], ◌∷◌, none, some, Bytes, codes, success,
  failure, str_eq,
}
use wg_auth.Api.Logout.Laws.{MayLogout}
use wg_auth.Api.Logout.Outcome.{LoggedOut, handle_logout_outcome}
use wg_auth.Api.Renew.Outcome.{Renewed, extend_session-Renewed}
use wg_auth.Api.Logout.{handle_logout}
use wg_auth.Api.Renew.Laws.{MayRenew, renewed_fields, handle_renew_cases}
use wg_auth.Api.Renew.{handle_renew}
use wg_auth.Client.Api.Wire.{
  object_of, transfer_of, WireLaws, read_refused, read_accepted, send_printed,
}
use wg_auth.Client.Api.{
  Settings, post_request, do_post, post_token, client_api_logout, client_api_renew, number_of,
}
use wg_auth.Client.{Http}
use wg_auth.Config.{ServerConfig}
use wg_auth.Db.{Session}
use wg_auth.External.{External}
use wg_auth.Libc.{pos}
use wg_auth.Server.{Server, Calls, Fields, string}

module _ {K N : Type 0} (ext : External K) (cfg : ServerConfig) (calls : Calls) (http : Http N)
    (print : Fields → Bytes) (wire : WireLaws http print) (s : Settings) (token body : Bytes)
    (n : N) (st : Server K) (printed : calls.printed ≡ true) where
  read_expiry : (t : ℕ) → number_of (pos 0) (object_of (renewed_fields t) "expires_at") ≡ pos t
  unfolding object_of str_eq
  read_expiry t = refl

  -- The client's renewal, where the request reaches handle_renew, its reply reaches the client, and
  -- the server has the memory for its response: either the client reports a failure, and the server
  -- is as it was; or the session was one that may be renewed, and the client has the expiry that
  -- the server has written to its row, the default time to live from the clock on, or that it has
  -- failed to write where SQLite fails with the UPDATE.
  pub client_renew_agrees :
      (http.perform
          (post_request s
            (codes "/renew")
            (http.print_strings (("session_token", token) ∷ []))
            (some token))
          n).1
        ≡ transfer_of print (handle_renew ext cfg calls body st).1
      → let st' = (handle_renew ext cfg calls body st).0 in
        (((client_api_renew http s token (pos 0) n).1 ≡ none) × (st' ≡ st))
        ⊎ ((sess : Session) × (may : MayRenew ext cfg calls body st.db sess) × ((client_api_renew
                http s token
                (pos 0)
                n).1
              ≡ some (pos (calls.check_time + cfg.session_default_ttl_seconds)))
            × Renewed ext cfg calls may.token sess may.row.row
                (calls.check_time + cfg.session_default_ttl_seconds)
                st
                st')
  unfolding client_api_renew post_token do_post
  client_renew_agrees sent = elim (handle_renew_cases ext cfg calls body st) [
    | inl (same, bad) ↦
        inl (
          rw (client_api_renew, post_token, do_post, sent, read_refused http print _ bad) refl,
          same,
        )
    | inr (sess, may, e) ↦
        let until : ℕ = calls.check_time + cfg.session_default_ttl_seconds in
        let told =
          sent
          ∙ ap (transfer_of print)
              (ap (λ r. r.1) e ∙ send_printed calls (renewed_fields until) printed) in
        inr (
          sess,
          may,
          rw
              (
                client_api_renew,
                post_token,
                do_post,
                told,
                read_accepted http print wire (renewed_fields until),
              )
              (ap (λ t. some t) (read_expiry until)),
          rw e (extend_session-Renewed ext cfg calls body sess st may),
        )
  ]

  -- The client's logout, where the request reaches handle_logout, its reply reaches the client, and
  -- the server has the memory for its response: either the client reports a failure, and the server
  -- is as it was; or it reports success, the session was one that may be logged out, and the server
  -- has removed its peer, released its address and revoked its row, or failed to revoke it where
  -- SQLite fails with the UPDATE.
  pub client_logout_agrees :
      (http.perform
          (post_request s
            (codes "/logout")
            (http.print_strings (("session_token", token) ∷ []))
            (some token))
          n).1
        ≡ transfer_of print (handle_logout ext cfg calls body st).1
      → let st' = (handle_logout ext cfg calls body st).0 in
        (((client_api_logout http s token n).1 ≡ failure) × (st' ≡ st))
        ⊎ ((sess : Session) × (key : Bytes) × (may : MayLogout ext cfg calls body st.db sess key)
            × ((client_api_logout http s token n).1 ≡ success)
            × LoggedOut ext cfg calls may.token sess may.row.row key st st')
  unfolding client_api_logout post_token do_post
  client_logout_agrees sent = elim (handle_logout_outcome ext cfg calls body st) [
    | inl (same, bad) ↦ inl (
      rw (client_api_logout, post_token, do_post, sent, read_refused http print _ bad) refl,
      same,
    )
    | inr (sess, key, may, out, e) ↦
        let fields : Fields = ("status", string (codes "ok")) ∷ [] in
        let told = sent ∙ ap (transfer_of print) (e ∙ send_printed calls fields printed) in
        inr (
          sess,
          key,
          may,
          rw (client_api_logout, post_token, do_post, told, read_accepted http print wire fields)
              refl,
          out,
        )
  ]
