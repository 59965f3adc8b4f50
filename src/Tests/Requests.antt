-- ===== src/Tests/Requests.antt =====
-- The handlers, the reaper and the daemon, at concrete requests.
use wg_auth.Base.{
  str_eq, if◌then◌else◌, ◌-◌, ◌<◌, ◌≤◌, ◌≡◌, ◌⊎◌, refl, true, false, List, [], ◌∷◌, none, some,
  Bytes, codes, replicate,
}
use wg_auth.Api.Listener.{Files}
use wg_auth.Config.{ServerConfig}
use wg_auth.Api.Login.Outcome.{RolledBack, Granted, handle_login_outcome}
use wg_auth.Api.Login.Paths.{Authentic}
use wg_auth.Api.Login.{handle_login, max_sessions}
use wg_auth.Api.Logout.Laws.{MayLogout}
use wg_auth.Api.Logout.Outcome.{LoggedOut, handle_logout_outcome}
use wg_auth.Api.Logout.{handle_logout}
use wg_auth.Api.Renew.Laws.{MayRenew, renewed_fields}
use wg_auth.Api.Renew.Outcome.{Renewed, handle_renew_outcome}
use wg_auth.Api.Renew.{handle_renew}
use wg_auth.Api.Replies.{Untouched}
use wg_auth.Api.{get_client_ip, send_json_response}
use wg_auth.Daemon.Safety.{leases_stay_exclusive}
use wg_auth.Daemon.{Reachable, serves, steps}
use wg_auth.Api.Router.{Request, api_router}
use wg_auth.Db.Holders.{holders}
use wg_auth.Db.{
  Account, Session, runs, all_listed, count, is_active, is_expired, db_count_active_sessions,
}
use wg_auth.External.{JsonObject, WgDevice}
use wg_auth.Leases.{Backed, IsExclusive}
use wg_auth.RateLimit.{check_rate_limit}
use wg_auth.Reaper.Laws.{reap-IsExclusive}
use wg_auth.Reaper.{Pass, reap}
use wg_auth.Server.{Server, string}
use wg_auth.Tests.Servers.{st0, st1, reached0, exclusive0, exclusive1, client, token}
use wg_auth.Tests.World.{net, net-laws, ext, cfg, calls_at}

abbrev login_request : Request
login_request = record {
  method = codes "POST";
  url = codes "/login";
  authorization = none;
  address = client;
}

abbrev served : Server (List WgDevice)
served = (api_router ext cfg (calls_at 100 7) login_request (some (codes "secret")) true [] st0).0

abbrev served_twice : Server (List WgDevice)
served_twice =
    (api_router ext cfg (calls_at 200 8) login_request (some (codes "secret")) true [] served).0

-- One pass, long after the session has expired.
abbrev late_pass : Pass
late_pass = record {
  list_run = all_listed;
  list_time = 90000;
  reaping = λ i. record {
    update_run = runs;
    audit_run = runs;
    audit_time = 90000;
    stack = replicate 32 0;
  };
}

-- A login, and then another one.
reached2 : Reachable ext cfg served_twice
reached2 =
    steps served _
      (steps st0 served reached0
        (serves (calls_at 100 7) login_request (some (codes "secret")) true [] st0 refl))
      (serves (calls_at 200 8) login_request (some (codes "secret")) true [] served refl)

leases_stay_exclusive_example :
    ((ip : Bytes) → holders ip served_twice.db.sessions ≤ 1)
    × ((ip : Bytes) → 0 < holders ip served_twice.db.sessions → Backed net served_twice.pool ip)
leases_stay_exclusive_example = leases_stay_exclusive ext net-laws cfg _ reached2

handle_login_outcome_example :
    let calls = calls_at 100 7 in
    let result = handle_login ext cfg calls client (codes "secret") st0 in
    RolledBack ext net-laws cfg calls st0 result
    ⊎ ((json : JsonObject) × (acc : Account) × ((check_rate_limit 100
            (get_client_ip net client)
            st0.fails).0
          ≡ false)
        × (ext.parse_json (codes "secret") ≡ some json)
        × Authentic ext cfg calls json st0.db acc
        × (db_count_active_sessions runs 100 acc.id st0.db < max_sessions)
        × Granted ext net-laws cfg calls acc st0 result)
handle_login_outcome_example =
    handle_login_outcome ext net-laws cfg (calls_at 100 7) client (codes "secret") st0
      exclusive0.ready

handle_logout_outcome_example :
    let calls = calls_at 200 0 in
    let result = handle_logout ext cfg calls token st1 in
    Untouched result st1
    ⊎ ((sess : Session) × (key : Bytes) × (may : MayLogout ext cfg calls token st1.db sess key)
        × LoggedOut ext cfg calls may.token sess may.row.row key st1 result.0
        × (result.1 ≡ send_json_response calls (("status", string (codes "ok")) ∷ []) 200))
handle_logout_outcome_example = handle_logout_outcome ext cfg (calls_at 200 0) token st1

handle_renew_outcome_example :
    let calls = calls_at 300 0 in
    let result = handle_renew ext cfg calls token st1 in
    Untouched result st1
    ⊎ ((sess : Session) × (may : MayRenew ext cfg calls token st1.db sess) × Renewed ext cfg calls
          may.token sess may.row.row 43500 st1 result.0
        × (result.1 ≡ send_json_response calls (renewed_fields 43500) 200))
handle_renew_outcome_example = handle_renew_outcome ext cfg (calls_at 300 0) token st1

reap-IsExclusive_example :
    let st = reap ext cfg late_pass st1 in
    IsExclusive net st.pool st.db
    × (count (is_expired 90000) st.db.sessions ≡ count (is_expired 90000) st1.db.sessions - 100)
    × (count (is_active 90000) st.db.sessions ≡ count (is_active 90000) st1.db.sessions)
reap-IsExclusive_example =
    reap-IsExclusive ext net-laws cfg late_pass st1 refl (λ k. refl) exclusive1

-- A certificate and a key that are configured; only the certificate can be read.
abbrev with_tls : ServerConfig
with_tls = record cfg { tls_cert = codes "cert.pem"; tls_key = codes "key.pem" }

abbrev one_file : Files
one_file path = if str_eq path (codes "cert.pem") then (some (codes "cert"), true) else (none, true)
