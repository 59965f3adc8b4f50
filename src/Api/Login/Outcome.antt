-- ===== src/Api/Login/Outcome.antt =====
-- handle_login as a whole: it grants a session, or it leaves the sessions and the pool as they
-- were.
use wg_auth.Base.{
  ℕ, ◌+◌, ◌<◌, ◌≡◌, refl, subst, ◌≢◌, ◌⊎◌, inl, inr, false, [], ◌∷◌, ◌++◌, Option, none, some,
  Bytes, codes, Bool-cases, arith, leb, Rc, success, failure,
}
use wg_auth.Api.Replies.{status_of, send_error_status}
use wg_auth.Api.Login.Paths.{Authentic, handle_login_paths}
use wg_auth.Api.Login.{
  login_fields, login_stored, login_store, login_peered, login_allocated, login_grant,
  login_session, handle_login, max_sessions,
}
use wg_auth.Api.{ClientAddress, get_client_ip, send_json_response}
use wg_auth.Auth.{auth_generate_keypair, auth_generate_token}
use wg_auth.Config.{ServerConfig}
use wg_auth.Db.Rows.{db_create_session_cases, db_log_audit-sessions}
use wg_auth.Db.{Account, new_session, db_count_active_sessions}
use wg_auth.External.{External, InetLaws, JsonObject}
use wg_auth.IpPool.Allocation.{
  Grants, Grows, Grows-refl, Same-IsReady, Allocated, ip_pool_allocate-Allocated,
}
use wg_auth.IpPool.Return.{Sets, ip_pool_release-Sets}
use wg_auth.IpPool.Shape.{IsReady}
use wg_auth.IpPool.{Pool, address_text, ip_pool_release}
use wg_auth.RateLimit.{check_rate_limit}
use wg_auth.Server.{Server, Calls, Reply}

-- A bit that was granted and is cleared again: nothing that was to be had is lost.
Grants-Sets : (p q r : Pool) (j : ℕ) → Grants p q j → Sets false j q r → Grows p r
Grants-Sets p q r j g s = record {
  same = ground (arith, g.same, s.same);
  kept = λ k used. ground (arith, g.kept k used, s.bits k, g.free);
  only = λ k used. ground (arith, s.bits k, g.only k);
}

module _ {K : Type 0} (ext : External K) (laws : InetLaws ext.net) (cfg : ServerConfig)
    (calls : Calls) where
  -- No session is added, no address that was to be had is lost, and the reply is no success.
  abbrev pub RolledBack : Server K → Server K × Reply → Type 0
  RolledBack st (st', reply) =
      (st'.db.sessions ≡ st.db.sessions)
      × (st'.db.next_session ≡ st.db.next_session)
      × Grows st.pool st'.pool
      × (status_of reply ≢ some 200)

  -- The account has one more session, with a fresh token, on an address that was to be had, and the
  -- reply tells the client so.
  abbrev pub Granted : Account → Server K → Server K × Reply → Type 0
  Granted acc st (st', reply) =
      let (public_key, private_key, _) = auth_generate_keypair ext calls.key_random in
      let token = auth_generate_token ext calls.token_random in
      let expires_at : ℕ = calls.expiry_time + cfg.session_default_ttl_seconds in
      (j : ℕ) × (0 < j)
      × (j + 1 < st.pool.num_ips)
      × Grants st.pool st'.pool j
      × (st'.db.sessions
          ≡ st.db.sessions
            ++ new_session st.db.next_session calls.insert_time acc.id (ext.to_base64 public_key)
                (address_text ext.net 32 (st.pool.pool_start + j)) token expires_at
              ∷ [])
      × (st'.db.next_session ≡ st.db.next_session + 1)
      × (reply
          ≡ send_json_response calls
              (login_fields ext cfg calls token private_key
                (address_text ext.net 32 (st.pool.pool_start + j)) st.server_pubkey expires_at)
              200)

  -- A granted address is given back.
  release-Grows :
      (p q : Pool) (j : ℕ)
      → IsReady p
      → j + 1 < p.num_ips
      → Grants p q j
      → Grows p (ip_pool_release ext.net (address_text ext.net 32 (p.pool_start + j)) q).0
  release-Grows p q j w hi g =
      let back =
        ip_pool_release-Sets ext.net laws q (Same-IsReady p q w g.same) j (omega (arith, g.same)) in
      subst (λ n. Grows p (ip_pool_release ext.net (address_text ext.net 32 (n + j)) q).0)
        g.same.starts (Grants-Sets p q _ j g back.1)

  module _ (acc : Account) (st : Server K) (w : IsReady st.pool) where
    -- Either, for the result of a stage of the login that began in `st`.
    abbrev Ends : Server K × Reply → Type 0
    Ends r = RolledBack st r ⊎ Granted acc st r

    module _ (q : Pool) (j : ℕ) (lo : 0 < j) (hi : j + 1 < st.pool.num_ips) (g : Grants st.pool q j)
        (k : K) where
      abbrev ip : Bytes
      ip = address_text ext.net 32 (st.pool.pool_start + j)

      login_store-Ends :
          let (public_key, private_key, _) = auth_generate_keypair ext calls.key_random in
          Ends (
            login_store ext cfg calls acc public_key private_key ip
              (record st { pool = q; kernel = k }))
      unfolding login_store login_stored
      login_store-Ends =
          elim (db_create_session_cases calls.insert_run calls.insert_time acc.id
            (ext.to_base64 public_key) ip token expires_at st.db) [
              | inl refused ↦
                  rw (login_store, refused)
                    (inl (
                      refl,
                      refl,
                      release-Grows st.pool q j w hi g,
                      send_error_status calls "Failed to create session in DB" 500 (omega arith),
                    ))
              | inr inserted ↦
                  rw (login_store, inserted)
                    (inr (
                      let audited =
                        db_log_audit-sessions calls.audit_run calls.audit_time acc.id
                          (codes "login") ip _ in
                      (j, lo, hi, g, audited.0, audited.1, refl)))
            ]
        where
          public_key : Bytes
          public_key = (auth_generate_keypair ext calls.key_random).0

          token : Bytes
          token = auth_generate_token ext calls.token_random

          expires_at : ℕ
          expires_at = calls.expiry_time + cfg.session_default_ttl_seconds

      login_peered-Ends :
          (rc : Rc)
          → let (public_key, private_key, _) = auth_generate_keypair ext calls.key_random in
            Ends (
              login_peered ext cfg calls acc public_key private_key ip
                (record st { pool = q })
                (k, rc))
      unfolding login_peered
      login_peered-Ends failure = inl (
        refl,
        refl,
        release-Grows st.pool q j w hi g,
        send_error_status calls "Failed to add peer to wg interface" 500 (omega arith),
      )
      login_peered-Ends success = login_store-Ends

    login_allocated-Ends :
        (r : Pool × Option Bytes)
        → Allocated ext.net 32 st.pool r
        → let (public_key, private_key, _) = auth_generate_keypair ext calls.key_random in
          Ends (login_allocated ext cfg calls acc public_key private_key st r)
    unfolding login_allocated
    login_allocated-Ends (q, none) (g, full) =
        inl (refl, refl, g, send_error_status calls "IP pool exhausted" 503 (omega arith))
    login_allocated-Ends (q, some ip) (j, at, lo, hi, g, first) =
        rw at (login_peered-Ends q j lo hi g _ _)

    login_grant-Ends : Ends (login_grant ext cfg calls acc st)
    unfolding login_grant
    login_grant-Ends = login_allocated-Ends _ (ip_pool_allocate-Allocated ext.net 32 st.pool w)

  -- A login with any body, from any address, ends in one of two ways. Either it adds no session,
  -- loses no address that was to be had, on whichever branch it failed, and its status is not 200.
  -- Or its address is not rate-limited, its body parses, its username is that of an enabled
  -- account, the password passes the check against the account's hash, the account has fewer than
  -- five active sessions, and it is granted one.
  pub handle_login_outcome :
      (address : ClientAddress) (body : Bytes) (st : Server K)
      → IsReady st.pool
      → RolledBack st (handle_login ext cfg calls address body st)
        ⊎ ((json : JsonObject) × (acc : Account) × ((check_rate_limit calls.limit_time
                (get_client_ip ext.net address)
                st.fails).0
              ≡ false)
            × (ext.parse_json body ≡ some json)
            × Authentic ext cfg calls json st.db acc
            × (db_count_active_sessions calls.count_run calls.count_time acc.id st.db
                < max_sessions)
            × Granted acc st (handle_login ext cfg calls address body st))
  unfolding login_session
  handle_login_outcome address body st w = elim (handle_login_paths ext cfg calls address body st) [
    | inl (t, reply, e, bad) ↦ rw e (inl (refl, refl, Grows-refl st.pool w.bytes, bad))
    | inr (json, free, parsed, (acc, authentic, e)) ↦
        elim (Bool-cases (
          leb max_sessions
            (db_count_active_sessions calls.count_run calls.count_time acc.id st.db))) [
              | inl full ↦
                  rw (e, full, login_session)
                    (inl (
                      refl,
                      refl,
                      Grows-refl st.pool w.bytes,
                      send_error_status calls "Too many active sessions" 429 (omega arith),
                    ))
              | inr room ↦
                  rw (e, room, login_session)
                    (elim (login_grant-Ends acc (checked address st) w) [
                      | inl back ↦ inl back
                      | inr granted ↦
                          inr (json, acc, free, parsed, authentic, ground (arith, room), granted)
                    ])
            ]
  ]
    where
      checked : ClientAddress → Server K → Server K
      checked address st = record st {
        fails = (check_rate_limit calls.limit_time (get_client_ip ext.net address) st.fails).1;
      }
