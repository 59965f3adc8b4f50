-- ===== src/Tests/Threads.antt =====
-- The passes of the reaper and the calls of the pool, at concrete
-- values.
use wg_auth.Base.{◌≤◌, ◌≡◌, refl, List, [], ◌∷◌, codes, arith, replicate}
use wg_auth.WgCtl.{wgctl_add_peer}
use wg_auth.Base.{str_eq}
use wg_auth.RateLimit.{check_rate_limit, check_from, ip_hash, hash_from, write, judge}
use wg_auth.IpPool.Bitmap.{is_used, test_bit, mark}
use wg_auth.Auth.{auth_verify_password, auth_generate_keypair, auth_generate_token, clamp}
use wg_auth.Api.{get_client_ip, send_json_response}
use wg_auth.Api.Login.{
  handle_login, login_object, login_account, login_password, login_session, login_grant,
  login_allocated, login_peered, login_store, login_stored,
}
use wg_auth.Db.{
  runs, all_listed, is_expired, count, db_get_account_by_username, account_named,
  db_count_active_sessions, db_create_session, session_with, db_log_audit,
  db_revoke_all_active_sessions, revoke_active,
}
use wg_auth.IpPool.Allocator.Refinement.{ip_pool_refines}
use wg_auth.IpPool.Allocator.{Call, allocates, marks, serve_all, promise_all, view}
use wg_auth.IpPool.{index_of, ip_pool_allocate, scan, is_excluded, address_text}
use wg_auth.Reaper.Passes.{unrevoked, reaper_worker_ends_expired}
use wg_auth.Reaper.{Pass, reaper_worker}
use wg_auth.Tests.Pools.{pool0, ready0}
use wg_auth.Tests.Servers.{st1, exclusive1}
use wg_auth.Tests.World.{net, net-laws, ext, cfg, members}

abbrev late_pass : Pass
late_pass = record {
  list_run = all_listed;
  list_time = 90000;
  reaping = λ i. record {
    update_run = runs;
    audit_run = runs;
    audit_time = 90000;
    stack = replicate 32 0;
  };
}

one_session : unrevoked st1.db.sessions ≡ 1
unfolding handle_login login_object login_account login_password login_session login_grant
    login_allocated login_peered login_store login_stored get_client_ip send_json_response
    auth_verify_password auth_generate_keypair auth_generate_token clamp db_get_account_by_username
    account_named db_count_active_sessions count db_create_session session_with db_log_audit
    db_revoke_all_active_sessions revoke_active is_used test_bit mark ip_pool_allocate scan
    is_excluded address_text check_rate_limit check_from ip_hash hash_from write judge members
    str_eq wgctl_add_peer
one_session = refl

few : unrevoked st1.db.sessions ≤ 100
few = omega (arith, one_session)

reaper_worker_ends_expired_example :
    count (is_expired 50000) (reaper_worker ext cfg (late_pass ∷ []) st1).db.sessions ≡ 0
reaper_worker_ends_expired_example =
    reaper_worker_ends_expired ext net-laws cfg 50000 (late_pass ∷ []) st1 exclusive1
      ((refl, (λ k. refl), omega arith), tt) few

abbrev pool_calls : List Call
pool_calls = allocates 32 ∷ marks (codes "nothing") ∷ allocates 32 ∷ []

ip_pool_refines_example :
    serve_all net pool_calls pool0
    ≡ promise_all net (λ text. index_of net text pool0) pool_calls (view pool0)
ip_pool_refines_example = ip_pool_refines net net-laws pool_calls pool0 ready0
