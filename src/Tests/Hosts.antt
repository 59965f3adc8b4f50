-- ===== src/Tests/Hosts.antt =====
-- A start from the files of a host.
use wg_auth.Base.{
  ◌≡◌, refl, true, [], ◌∷◌, ◌++◌, List, none, some, Bytes, codes, str_eq, before, after,
}
use wg_auth.Api.Listener.{plain, api_start, listener_of, pem_of}
use wg_auth.Config.Load.{
  safe_atoi, trim_end, trim, fgets_all, to_nul, set_server, set_api, set_db, set_ip_pool,
  set_session, set_security, set_key, value_of, load_pair, load_line, load_lines, load_config,
}
use wg_auth.Daemon.Host.Begin.{Begun, main_start-Begun}
use wg_auth.Daemon.Host.{Host, main_start, opened_db}
use wg_auth.Daemon.{start, start_pooled, pool_cidr}
use wg_auth.Db.Init.{Tables, db_init, exec_sql, unless_failed, db_of}
use wg_auth.Db.{runs}
use wg_auth.External.{WgDevice}
use wg_auth.IpPool.Bitmap.{is_used, test_bit, mark}
use wg_auth.IpPool.{
  ip_pool_init, parse_cidr, set_up, fresh_bitmap, prefix_of, network, excluded_range,
}
use wg_auth.Libc.{
  atoi, to_int, strtol, signed_part, convert, digits, skip_space, is_digit, is_space,
}
use wg_auth.Tests.Servers.{st0}
use wg_auth.Tests.World.{ext, cfg, ann, read_address}
use wg_auth.WgCtl.StaticConfig.Apply.{wgctl_load_static_config}

abbrev conf : Bytes
conf = codes "[ip_pool]\ncidr = " ++ (208 ∷ codes "/28\n")

-- A file with the accounts only.
abbrev accounts_only : Tables
accounts_only = record { account_rows = some (ann ∷ [], 2); session_rows = none; audit_rows = none }

abbrev host : Host (List WgDevice)
host = record {
  sodium_ready = true;
  conf = some conf;
  tables = λ path. accounts_only;
  opening = record { opens = true; accounts_run = true; sessions_run = true; audit_run = true };
  wg_conf = λ path. none;
  memory = λ n. true;
  kernel = [];
  revoke_run = runs;
  files = λ path. (none, true);
  api_starts = λ listener. true;
  reaper_starts = true;
}

begun : main_start ext host ≡ some (st0, plain cfg.api_listen_port)
unfolding main_start start start_pooled pool_cidr wgctl_load_static_config api_start listener_of
    pem_of opened_db db_init exec_sql unless_failed db_of ip_pool_init parse_cidr set_up
    fresh_bitmap prefix_of network excluded_range atoi to_int read_address mark test_bit is_used
    safe_atoi trim_end trim fgets_all to_nul set_server set_api set_db set_ip_pool set_session
    set_security set_key value_of load_pair load_line load_lines load_config strtol signed_part
    convert digits skip_space is_digit is_space before after str_eq
begun = refl

main_start-Begun_example : Begun ext host st0 (plain cfg.api_listen_port)
main_start-Begun_example =
    main_start-Begun ext host st0 (plain cfg.api_listen_port) tt tt refl begun
