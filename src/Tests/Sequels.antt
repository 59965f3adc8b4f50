-- ===== src/Tests/Sequels.antt =====
-- What follows a login: a logout, a renewal and a status report, each answered with 200.
use wg_auth.Base.{◌≤◌, ◌≡◌, ◌++◌, refl, some, Bytes, codes, str_eq}
use wg_auth.Api.Login.{
  handle_login, login_object, login_account, login_password, login_session, login_grant,
  login_allocated, login_peered, login_store, login_stored,
}
use wg_auth.Api.Lookup.{IsRowOf}
use wg_auth.Api.Replies.{status_of}
use wg_auth.Api.Status.Laws.{handle_status_sound}
use wg_auth.Api.Status.{
  peer_stats, status_fields, handle_status, status_session, bearer_token, strip_prefix,
}
use wg_auth.Api.{
  get_client_ip, send_json_response, session_of_body, session_of_item, session_of_token, device_key,
}
use wg_auth.Auth.{auth_verify_password, auth_generate_keypair, auth_generate_token, clamp}
use wg_auth.Db.{
  Session, db_get_account_by_username, account_named, db_count_active_sessions, count,
  db_create_session, session_with, db_log_audit, db_get_session_by_token,
  db_revoke_all_active_sessions, revoke_active,
}
use wg_auth.IpPool.Bitmap.{is_used, test_bit, mark}
use wg_auth.IpPool.{ip_pool_allocate, scan, is_excluded, address_text}
use wg_auth.RateLimit.{check_rate_limit, check_from, ip_hash, hash_from, write, judge}
use wg_auth.Tests.Servers.{st1, token}
use wg_auth.Tests.World.{ext, cfg, calls_at, members}
use wg_auth.WgCtl.{wgctl_add_peer}

abbrev header : Bytes
header = codes "Bearer " ++ token

reported : status_of (handle_status ext cfg (calls_at 400 0) (some header) st1) ≡ some 200
unfolding handle_login login_object login_account login_password login_session login_grant
    login_allocated login_peered login_store login_stored handle_status status_session bearer_token
    strip_prefix get_client_ip send_json_response session_of_body session_of_item session_of_token
    device_key auth_verify_password auth_generate_keypair auth_generate_token clamp
    db_get_account_by_username account_named db_count_active_sessions count db_create_session
    session_with db_log_audit db_get_session_by_token db_revoke_all_active_sessions revoke_active
    is_used test_bit mark ip_pool_allocate scan is_excluded address_text check_rate_limit check_from
    ip_hash hash_from write judge members str_eq wgctl_add_peer
reported = refl

handle_status_sound_example :
    (t : Bytes) × (sess : Session) × (some header ≡ some (codes "Bearer " ++ t))
    × IsRowOf t st1.db sess
    × (sess.revoked ≡ 0)
    × (400 ≤ sess.expires_at)
    × (handle_status ext cfg (calls_at 400 0) (some header) st1
        ≡ send_json_response
            (calls_at 400 0)
            (status_fields sess (peer_stats ext cfg (calls_at 400 0) sess st1))
            200)
handle_status_sound_example =
    handle_status_sound ext cfg (calls_at 400 0) (some header) st1 reported
