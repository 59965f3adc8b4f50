-- ===== src/Tests/Configs.antt =====
-- A small authd.conf.
use wg_auth.Base.{◌≡◌, refl, Option, some, Bytes, codes, str_eq, before, after, success}
use wg_auth.Config.Bounds.{IsValid, load_config-IsValid}
use wg_auth.Config.Load.{
  safe_atoi, trim_end, trim, fgets_all, to_nul, set_server, set_api, set_db, set_ip_pool,
  set_session, set_security, set_key, value_of, load_pair, load_line, load_lines, load_config,
}
use wg_auth.Config.{default_config}
use wg_auth.Libc.{strtol, signed_part, convert, digits, skip_space, is_digit, is_space}

abbrev small_file : Option Bytes
small_file = some (
    codes
      "# the server\n[api]\n  listen_port = 80 ; plain\ntls_key=k\n[session]\nrenew_grace_seconds=99999\nport\n")

small_config : load_config small_file ≡ (
  record default_config {
    api_listen_port = 80;
    tls_key = codes "k";
    session_renew_grace_seconds = 300;
  },
  success,
)
unfolding safe_atoi trim_end trim fgets_all to_nul set_server set_api set_db set_ip_pool set_session
    set_security set_key value_of load_pair load_line load_lines load_config strtol signed_part
    convert digits skip_space is_digit is_space before after str_eq
small_config = refl

load_config-IsValid_example : IsValid (load_config small_file).0
load_config-IsValid_example = load_config-IsValid small_file
