-- ===== src/Api/Login/Paths.antt =====
-- The ways through handle_login: a refusal that changes the rate limiter alone, or an authenticated
-- request for a session.
use wg_auth.Base.{
  ◌≡◌, refl, ◌≢◌, ◌⊎◌, inl, inr, true, false, some, Bytes, Option-cases, Bool-cases, arith, ◌==◌,
  ==_iff,
}
use wg_auth.Api.Login.{
  login_session, refuse, login_password, login_account, login_object, handle_login,
}
use wg_auth.Api.{ClientAddress, get_client_ip, valuestring, send_error}
use wg_auth.Api.Replies.{status_of, send_error_status}
use wg_auth.Auth.{auth_verify_password}
use wg_auth.Config.{ServerConfig}
use wg_auth.Db.{Db, Account, db_get_account_by_username}
use wg_auth.External.{External, Item, text, other, JsonObject}
use wg_auth.RateLimit.{Table, check_rate_limit, record_login_failure}
use wg_auth.Server.{Server, Calls, Reply, closed, fault}

module _ {K : Type 0} (ext : External K) (cfg : ServerConfig) (calls : Calls) where
  -- The request names an account that is enabled, with its password.
  pub record Authentic (json : JsonObject) (db : Db) (acc : Account) : Type 0 where
    pub user : Item
    pub password : Bytes
    pub has_username : json "username" ≡ some user
    pub has_password : json "password" ≡ some (text password)
    pub found : db_get_account_by_username calls.select_run (valuestring user) db ≡ some acc
    pub enabled : acc.disabled ≡ 0
    pub verified : ext.pwhash_verify acc.password_hash password ≡ true

  -- Only the rate limiter may have changed, and the reply is no success.
  abbrev pub Refused : Server K → Server K × Reply → Type 0
  Refused st r =
      (t : Table) × (reply : Reply) × (r ≡ (record st { fails = t }, reply))
      × (status_of reply ≢ some 200)

  -- The request is authentic, and goes on to the limit on sessions.
  abbrev pub Passed : JsonObject → Server K → Server K × Reply → Type 0
  Passed json st r =
      (acc : Account) × Authentic json st.db acc × (r ≡ login_session ext cfg calls acc st)

  abbrev PathOf : JsonObject → Server K → Server K × Reply → Type 0
  PathOf json st r = Refused st r ⊎ Passed json st r

  refuse-Refused :
      (client_ip : Bytes) (st : Server K) → Refused st (refuse ext cfg calls client_ip st)
  unfolding refuse
  refuse-Refused client_ip st = (
    record_login_failure calls.failure_time client_ip st.fails,
    send_error calls "Invalid credentials" 401,
    refl,
    send_error_status calls "Invalid credentials" 401 (omega arith),
  )

  module _ (client_ip : Bytes) (json : JsonObject) (st : Server K) where
    login_password_path :
        (user item : Item) (acc : Account)
        → json "username" ≡ some user
        → json "password" ≡ some item
        → db_get_account_by_username calls.select_run (valuestring user) st.db ≡ some acc
        → acc.disabled ≡ 0
        → Refused st (login_password ext cfg calls client_ip acc item st)
          ⊎ Passed json st (login_password ext cfg calls client_ip acc item st)
    unfolding login_password auth_verify_password
    login_password_path user other acc u p found enabled = inl (st.fails, fault, refl, λ e. cc)
    login_password_path user (text password) acc u p found enabled =
        elim (Bool-cases (ext.pwhash_verify acc.password_hash password)) [
          | inl right ↦ inr (
            acc,
            record {
              user = user;
              password = password;
              has_username = u;
              has_password = p;
              found = found;
              enabled = enabled;
              verified = right;
            },
            rw (login_password, auth_verify_password, right),
          )
          | inr wrong ↦
              rw (login_password, auth_verify_password, wrong) (inl (refuse-Refused client_ip st))
        ]

    login_account_path :
        (user item : Item)
        → json "username" ≡ some user
        → json "password" ≡ some item
        → Refused st (login_account ext cfg calls client_ip user item st)
          ⊎ Passed json st (login_account ext cfg calls client_ip user item st)
    unfolding login_account
    login_account_path user item u p =
        elim (Option-cases (db_get_account_by_username calls.select_run (valuestring user) st.db)) [
          | inl unknown ↦ rw (login_account, unknown) (inl (refuse-Refused client_ip st))
          | inr (acc, found) ↦ elim (Bool-cases (acc.disabled == 0)) [
            | inl on ↦
                rw (login_account, found, on)
                  (login_password_path user item acc u p found ((==_iff acc.disabled 0).0 on))
            | inr off ↦ rw (login_account, found, off) (inl (refuse-Refused client_ip st))
          ]
        ]

    missing : Refused st (st, send_error calls "Missing username or password" 400)
    missing = (
      st.fails,
      _,
      refl,
      send_error_status calls "Missing username or password" 400 (omega arith),
    )

    login_object_path :
        Refused st (login_object ext cfg calls client_ip json st)
        ⊎ Passed json st (login_object ext cfg calls client_ip json st)
    unfolding login_object
    login_object_path = elim (Option-cases (json "username")) [
      | inl absent ↦ rw (login_object, absent) (inl missing)
      | inr (user, u) ↦ elim (Option-cases (json "password")) [
        | inl absent ↦ rw (login_object, u, absent) (inl missing)
        | inr (item, p) ↦ rw (login_object, u, p) (login_account_path user item u p)
      ]
    ]

  -- A login changes nothing but the rate limiter and is no success, or it is not limited, its body
  -- parses, its account exists and is enabled, its password is right, and it goes on to
  -- `login_session`.
  pub handle_login_paths :
      (address : ClientAddress) (body : Bytes) (st : Server K)
      → let ip = get_client_ip ext.net address in
        let checked = record st { fails = (check_rate_limit calls.limit_time ip st.fails).1 } in
        Refused checked (handle_login ext cfg calls address body st)
        ⊎ ((json : JsonObject) × ((check_rate_limit calls.limit_time ip st.fails).0 ≡ false)
            × (ext.parse_json body ≡ some json)
            × Passed json checked (handle_login ext cfg calls address body st))
  unfolding handle_login
  handle_login_paths address body st =
      elim (Bool-cases
        (check_rate_limit calls.limit_time (get_client_ip ext.net address) st.fails).0) [
          | inl limited ↦
              rw (handle_login, limited)
                (inl (
                  _,
                  _,
                  refl,
                  send_error_status calls "Too many failed attempts, try again later" 429
                      (omega arith),
                ))
          | inr free ↦ elim (Option-cases (ext.parse_json body)) [
            | inl bad ↦ rw (handle_login, free, bad) (inl (_, closed, refl, λ e. cc))
            | inr (json, parsed) ↦
                rw (handle_login, free, parsed)
                  (elim (login_object_path (get_client_ip ext.net address) json checked) [
                    | inl refused ↦ inl refused
                    | inr passed ↦ inr (json, refl, refl, passed)
                  ])
          ]
        ]
    where
      checked : Server K
      checked = record st {
        fails = (check_rate_limit calls.limit_time (get_client_ip ext.net address) st.fails).1;
      }
