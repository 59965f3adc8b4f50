-- ===== src/Config.antt =====
-- server/src/config.c: the server's configuration.
pub mod Load
pub mod Bounds
use wg_auth.Base.{ℕ, [], Bytes, codes}

-- server_config_t
pub record ServerConfig : Type 0 where
  pub wg_interface : Bytes
  pub wg_conf_path : Bytes
  pub endpoint_public_addr : Bytes
  pub dns : Bytes
  pub api_listen_addr : Bytes
  pub api_listen_port : ℕ
  pub tls_cert : Bytes
  pub tls_key : Bytes
  pub db_path : Bytes
  pub ip_pool_cidr : Bytes
  pub ip_pool_exclude : Bytes
  pub session_default_ttl_seconds : ℕ
  pub session_renew_grace_seconds : ℕ
  pub session_reap_interval_seconds : ℕ
  pub argon2_time_cost : ℕ
  pub argon2_mem_cost_kb : ℕ

-- set_default_config; what it does not set is zeroed.
abbrev pub default_config : ServerConfig
default_config = record {
  wg_interface = codes "wg0";
  wg_conf_path = codes "/etc/wireguard/wg0.conf";
  endpoint_public_addr = [];
  dns = [];
  api_listen_addr = codes "127.0.0.1";
  api_listen_port = 8443;
  tls_cert = [];
  tls_key = [];
  db_path = [];
  ip_pool_cidr = [];
  ip_pool_exclude = [];
  session_default_ttl_seconds = 43200;
  session_renew_grace_seconds = 0;
  session_reap_interval_seconds = 60;
  argon2_time_cost = 3;
  argon2_mem_cost_kb = 65536;
}
