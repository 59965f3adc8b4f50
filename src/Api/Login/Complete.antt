-- ===== src/Api/Login/Complete.antt =====
-- A login that nothing stands in the way of.
use wg_auth.Base.{
  ℕ, ◌+◌, ◌<◌, ◌≡◌, refl, sym, ◌∙◌, subst, some_injective, ap, inl, inr, true, false, Option, none,
  some, Bytes, arith, leb, ==_iff, Rc, success, failure,
}
use wg_auth.Api.Login.Outcome.{Granted, handle_login_outcome}
use wg_auth.Api.Login.Paths.{Authentic}
use wg_auth.Api.Login.{
  login_stored, login_store, login_peered, login_allocated, login_grant, login_session,
  login_password, login_account, login_object, handle_login, max_sessions,
}
use wg_auth.Api.Replies.{status_of}
use wg_auth.Api.{ClientAddress, get_client_ip, valuestring, send_json_response}
use wg_auth.Auth.{auth_generate_keypair, auth_generate_token, auth_verify_password}
use wg_auth.Config.{ServerConfig}
use wg_auth.Db.{
  Account, Db, Run, runs, prepare_error, step_error, session_with, db_get_account_by_username,
  db_create_session, db_count_active_sessions,
}
use wg_auth.External.{External, InetLaws, JsonObject}
use wg_auth.IpPool.Allocation.{Allocated, ip_pool_allocate-Allocated, taken}
use wg_auth.IpPool.Shape.{IsReady}
use wg_auth.IpPool.{Pool}
use wg_auth.RateLimit.{check_rate_limit}
use wg_auth.Server.{Server, Calls, Reply}
use wg_auth.WgCtl.{wgctl_add_peer}

created :
    (run : Run) (now account : ℕ) (pubkey ip token : Bytes) (expires_at : ℕ) (db : Db)
    → run ≡ runs
    → session_with token db.sessions ≡ none
    → (db_create_session run now account pubkey ip token expires_at db).1 ≡ success
unfolding db_create_session
created prepare_error now account pubkey ip token expires_at db ready new = cc
created step_error now account pubkey ip token expires_at db ready new = cc
created runs now account pubkey ip token expires_at db ready new = rw (db_create_session, new) refl

module _ {K : Type 0} (ext : External K) (cfg : ServerConfig) (calls : Calls) where
  -- The rate limiter has let the address through.
  abbrev pub checked : ClientAddress → Server K → Server K
  checked address st = record st {
    fails = (check_rate_limit calls.limit_time (get_client_ip ext.net address) st.fails).1;
  }

  -- A request is that of one account.
  pub same_holder :
      (json : JsonObject) (db : Db) (a b : Account)
      → Authentic ext cfg calls json db a
      → Authentic ext cfg calls json db b
      → a ≡ b
  same_holder json db a b x y =
      let user = some_injective (sym x.has_username ∙ y.has_username) in
      some_injective (
        sym x.found
        ∙ ap (λ i. db_get_account_by_username calls.select_run (valuestring i) db) user
        ∙ y.found)

  -- An authentic request from an address that is not limited comes to the limit on sessions.
  pub handle_login-login_session :
      (address : ClientAddress) (body : Bytes) (st : Server K) (json : JsonObject) (acc : Account)
      → (check_rate_limit calls.limit_time (get_client_ip ext.net address) st.fails).0 ≡ false
      → ext.parse_json body ≡ some json
      → Authentic ext cfg calls json st.db acc
      → handle_login ext cfg calls address body st
        ≡ login_session ext cfg calls acc (checked address st)
  unfolding handle_login login_object login_account login_password auth_verify_password
  handle_login-login_session address body st json acc unlimited parsed a =
      let on = (==_iff acc.disabled 0).1 a.enabled in
      rw
        (
          handle_login, unlimited, parsed, login_object, a.has_username, a.has_password,
          login_account, a.found, on, login_password, auth_verify_password, a.verified,
        )
        refl

  -- The account may have one more session, an address is to be had, the interface takes the peer,
  -- the token is new, SQLite inserts the row, and there is memory for the response.
  pub record Unhindered (acc : Account) (st : Server K) : Type 0 where
    pub room : db_count_active_sessions calls.count_run calls.count_time acc.id st.db < max_sessions
    pub index : ℕ
    pub not_first : 0 < index
    pub not_last : index + 1 < st.pool.num_ips
    pub to_be_had : taken st.pool index ≡ false
    pub takes_peer :
        (ip : Bytes)
        → (wgctl_add_peer ext.net ext.wg cfg.wg_interface
            (auth_generate_keypair ext calls.key_random).0
            (some calls.psk_random)
            ip
            st.kernel).1
          ≡ success
    pub new_token : session_with (auth_generate_token ext calls.token_random) st.db.sessions ≡ none
    pub inserts : calls.insert_run ≡ runs
    pub printed : calls.printed ≡ true

  Ok : Server K × Reply → Type 0
  Ok r = status_of r.1 ≡ some 200

  login_stored-Ok :
      (acc : Account) (public_key private_key ip token : Bytes) (expires_at : ℕ) (st : Server K)
      (r : Db × Rc)
      → r.1 ≡ success
      → calls.printed ≡ true
      → Ok (login_stored ext cfg calls acc public_key private_key ip token expires_at st r)
  unfolding Ok login_stored send_json_response
  login_stored-Ok acc public_key private_key ip token expires_at st (db, failure) stored printed =
      cc
  login_stored-Ok acc public_key private_key ip token expires_at st (db, success) stored printed =
      ground (arith, printed)

  login_store-Ok :
      (acc : Account) (public_key private_key ip : Bytes) (st : Server K)
      → session_with (auth_generate_token ext calls.token_random) st.db.sessions ≡ none
      → calls.insert_run ≡ runs
      → calls.printed ≡ true
      → Ok (login_store ext cfg calls acc public_key private_key ip st)
  unfolding login_store
  login_store-Ok acc public_key private_key ip st new inserts printed =
      login_stored-Ok acc public_key private_key ip _ _ st _
        (created calls.insert_run calls.insert_time acc.id _ ip _ _ st.db inserts new) printed

  login_peered-Ok :
      (acc : Account) (public_key private_key ip : Bytes) (st : Server K) (r : K × Rc)
      → r.1 ≡ success
      → session_with (auth_generate_token ext calls.token_random) st.db.sessions ≡ none
      → calls.insert_run ≡ runs
      → calls.printed ≡ true
      → Ok (login_peered ext cfg calls acc public_key private_key ip st r)
  unfolding login_peered
  login_peered-Ok acc public_key private_key ip st (k, failure) set new inserts printed = cc
  login_peered-Ok acc public_key private_key ip st (k, success) set new inserts printed =
      login_store-Ok acc public_key private_key ip (record st { kernel = k }) new inserts printed

  module _ (acc : Account) (st : Server K) (u : Unhindered acc st) where
    login_allocated-Ok :
        (r : Pool × Option Bytes)
        → Allocated ext.net 32 st.pool r
        → let (public_key, private_key, _) = auth_generate_keypair ext calls.key_random in
          Ok (login_allocated ext cfg calls acc public_key private_key st r)
    unfolding login_allocated
    login_allocated-Ok (q, none) (g, full) = cc (full u.index u.not_first u.not_last, u.to_be_had)
    login_allocated-Ok (q, some ip) granted =
        login_peered-Ok acc _ _ ip _ _ (u.takes_peer ip) u.new_token u.inserts u.printed

    login_session-Ok : IsReady st.pool → Ok (login_session ext cfg calls acc st)
    unfolding login_session login_grant
    login_session-Ok ready =
        let few : leb max_sessions
              (db_count_active_sessions calls.count_run calls.count_time acc.id st.db)
            ≡ false =
          ground (arith, u.room) in
        rw (login_session, few, login_grant)
          (login_allocated-Ok _ (ip_pool_allocate-Allocated ext.net 32 st.pool ready))

module _ {K : Type 0} (ext : External K) (laws : InetLaws ext.net) (cfg : ServerConfig)
    (calls : Calls) where
  -- A request that is authentic and not rate-limited is granted a session from a well-formed pool,
  -- where the account has fewer than five, an address is to be had, the interface takes the peer,
  -- the token is new, SQLite inserts the row, and there is memory for the response.
  pub handle_login-Granted :
      (address : ClientAddress) (body : Bytes) (st : Server K) (json : JsonObject) (acc : Account)
      → IsReady st.pool
      → (check_rate_limit calls.limit_time (get_client_ip ext.net address) st.fails).0 ≡ false
      → ext.parse_json body ≡ some json
      → Authentic ext cfg calls json st.db acc
      → Unhindered ext cfg calls acc st
      → Granted ext laws cfg calls acc st (handle_login ext cfg calls address body st)
  unfolding Ok
  handle_login-Granted address body st json acc ready unlimited parsed a u =
      let passed =
        handle_login-login_session ext cfg calls address body st json acc unlimited parsed a in
      let ok : status_of (handle_login ext cfg calls address body st).1 ≡ some 200 = rw passed (
        login_session-Ok ext cfg calls acc (checked ext cfg calls address st)
          (record {
            room = u.room;
            index = u.index;
            not_first = u.not_first;
            not_last = u.not_last;
            to_be_had = u.to_be_had;
            takes_peer = u.takes_peer;
            new_token = u.new_token;
            inserts = u.inserts;
            printed = u.printed;
          })
          ready) in
      elim (handle_login_outcome ext laws cfg calls address body st ready) [
        | inl (a, b, c, bad) ↦ absurd (bad ok)
        | inr (json', holder, _, parsed', a', _, granted) ↦
            let same = some_injective (sym parsed' ∙ parsed) in
            subst
              (λ x. Granted ext laws cfg calls x st (handle_login ext cfg calls address body st))
              (same_holder ext cfg calls json st.db holder acc
                (subst (λ x. Authentic ext cfg calls x st.db holder) same a') a)
              granted
      ]
