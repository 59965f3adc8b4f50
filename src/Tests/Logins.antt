-- ===== src/Tests/Logins.antt =====
-- A login with an account that vpn-add-user has created, and one that nothing stands in the way of.
use wg_auth.Base.{◌≡◌, refl, true, false, [], ◌∷◌, List, none, some, Bytes, codes, str_eq, arith}
use wg_auth.AddUser.Login.{account_logs_in}
use wg_auth.AddUser.{Terminal, created, create, with_password, parse_args, choose_path, add_user}
use wg_auth.Api.Login.Complete.{checked, Unhindered, handle_login-Granted}
use wg_auth.Api.Login.Outcome.{Granted}
use wg_auth.Api.Login.Paths.{Authentic}
use wg_auth.Api.Login.{login_session, handle_login}
use wg_auth.Api.{get_client_ip}
use wg_auth.Auth.{auth_hash_password, auth_generate_keypair, auth_generate_token}
use wg_auth.Db.{
  Account, Db, runs, empty, db_create_account, account_named, db_get_account_by_username,
  db_count_active_sessions, count, session_with, db_revoke_all_active_sessions, revoke_active,
}
use wg_auth.External.{WgDevice, text}
use wg_auth.IpPool.Bitmap.{is_used, test_bit, mark}
use wg_auth.IpPool.{is_excluded}
use wg_auth.RateLimit.{check_rate_limit, check_from, ip_hash, hash_from, write, judge}
use wg_auth.Server.{Server}
use wg_auth.Tests.Servers.{st0, exclusive0, client}
use wg_auth.Tests.World.{net-laws, pwhash-laws, ext, cfg, ann, calls_at, members}
use wg_auth.WgCtl.{wgctl_add_peer}

abbrev terminal : Terminal
terminal = record {
  conf = none;
  sodium_ready = true;
  password = some (codes "hunter2");
  opened = λ path. some empty;
  insert_run = runs;
  insert_time = 7;
}

abbrev with_ann : Db
with_ann = record empty {
  accounts = record ann { password_hash = codes "hunter2"; created_at = 7 } ∷ [];
  next_account = 2;
}

abbrev to_tables : List Bytes
to_tables = codes "ann" ∷ codes "--db" ∷ codes "/tmp/db" ∷ []

ann_added : add_user ext terminal to_tables ≡ created (codes "/tmp/db") with_ann
unfolding add_user parse_args choose_path with_password create auth_hash_password db_create_account
    account_named str_eq
ann_added = refl

arguments_read : parse_args to_tables none none ≡ some (some (codes "ann"), some (codes "/tmp/db"))
unfolding parse_args str_eq
arguments_read = refl

abbrev serving : Server (List WgDevice)
serving = record st0 { db = record (st0.db) { accounts = with_ann.accounts } }

unlimited : (check_rate_limit 100 (get_client_ip ext.net client) st0.fails).0 ≡ false
unfolding check_rate_limit check_from ip_hash hash_from write judge str_eq get_client_ip
unlimited = refl

ann_named : members (codes "hunter2") "username" ≡ some (text (codes "ann"))
unfolding members str_eq
ann_named = refl

secret_given : members (codes "hunter2") "password" ≡ some (text (codes "hunter2"))
unfolding members str_eq
secret_given = refl

account_logs_in_example :
    (acc : Account) × Authentic ext cfg (calls_at 100 7) (members (codes "hunter2")) serving.db acc
    × (handle_login ext cfg (calls_at 100 7) client (codes "hunter2") serving
        ≡ login_session ext cfg
            (calls_at 100 7)
            acc
            (checked ext cfg (calls_at 100 7) client serving))
account_logs_in_example =
    account_logs_in ext pwhash-laws cfg (calls_at 100 7) terminal to_tables (codes "/tmp/db")
      with_ann (codes "ann") (codes "hunter2") (some (codes "/tmp/db")) client (codes "hunter2")
      serving (members (codes "hunter2")) ann_added arguments_read refl refl refl unlimited refl
      ann_named secret_given

ann_found : db_get_account_by_username runs (some (codes "ann")) st0.db ≡ some ann
unfolding db_get_account_by_username account_named str_eq db_revoke_all_active_sessions
    revoke_active
ann_found = refl

ann-Authentic : Authentic ext cfg (calls_at 100 7) (members (codes "secret")) st0.db ann
unfolding members str_eq
ann-Authentic = record {
  user = text (codes "ann");
  password = codes "secret";
  has_username = refl;
  has_password = refl;
  found = ann_found;
  enabled = refl;
  verified = refl;
}

ann-Unhindered : Unhindered ext cfg (calls_at 100 7) ann st0
unfolding db_count_active_sessions count is_used test_bit is_excluded mark wgctl_add_peer
    auth_generate_token auth_generate_keypair session_with db_revoke_all_active_sessions
    revoke_active
ann-Unhindered = record {
  room = omega arith;
  index = 1;
  not_first = omega arith;
  not_last = omega arith;
  to_be_had = refl;
  takes_peer = λ ip. refl;
  new_token = refl;
  inserts = refl;
  printed = refl;
}

handle_login-Granted_example :
    Granted ext net-laws cfg
      (calls_at 100 7)
      ann
      st0
      (handle_login ext cfg (calls_at 100 7) client (codes "secret") st0)
handle_login-Granted_example =
    handle_login-Granted ext net-laws cfg (calls_at 100 7) client (codes "secret") st0
      (members (codes "secret")) ann exclusive0.ready unlimited refl ann-Authentic ann-Unhindered
