-- ===== src/Config/Bounds.antt =====
-- Whatever the file holds, the configuration is within its bounds.
use wg_auth.Base.{
  ℕ, ◌-◌, ◌*◌, ◌≤◌, ◌≡◌, Bool, true, false, List, [], ◌∷◌, Option, none, some, Bytes, strncpy,
  before, after, Bool-cases, Option-cases, inl, inr, ◌||◌, arith, ◌==◌, if◌then◌else◌, length,
  length-take_le,
}
use wg_auth.Config.Load.{
  safe_atoi, set_server, set_api, set_db, set_ip_pool, set_session, set_security, set_key,
  load_pair, load_line, load_lines, load_config, max_path_len, max_host_len, max_ip_len, trim,
  value_of, fgets_all, to_nul,
}
use wg_auth.Config.{ServerConfig, default_config}
use wg_auth.Libc.{ℤ, within, to_ℕ, pos, negsuc, strtol}

-- The texts fit their buffers, and the numbers are in the ranges that load_config asks for.
pub record IsValid (cfg : ServerConfig) : Type 0 where
  pub wg_interface : length cfg.wg_interface ≤ 255
  pub wg_conf_path : length cfg.wg_conf_path ≤ 255
  pub endpoint : length cfg.endpoint_public_addr ≤ 127
  pub dns : length cfg.dns ≤ 63
  pub listen_addr : length cfg.api_listen_addr ≤ 63
  pub port_lo : 1 ≤ cfg.api_listen_port
  pub port_hi : cfg.api_listen_port ≤ 65535
  pub cert : length cfg.tls_cert ≤ 255
  pub key : length cfg.tls_key ≤ 255
  pub path : length cfg.db_path ≤ 255
  pub cidr : length cfg.ip_pool_cidr ≤ 63
  pub exclude : length cfg.ip_pool_exclude ≤ 63
  pub ttl_lo : 60 ≤ cfg.session_default_ttl_seconds
  pub ttl_hi : cfg.session_default_ttl_seconds ≤ 2592000
  pub grace : cfg.session_renew_grace_seconds ≤ 86400
  pub reap_lo : 5 ≤ cfg.session_reap_interval_seconds
  pub reap_hi : cfg.session_reap_interval_seconds ≤ 3600
  pub time_lo : 1 ≤ cfg.argon2_time_cost
  pub time_hi : cfg.argon2_time_cost ≤ 100
  pub mem_lo : 1024 ≤ cfg.argon2_mem_cost_kb
  pub mem_hi : cfg.argon2_mem_cost_kb ≤ 4194304

within_sound : (lo hi : ℕ) (v : ℤ) → within lo hi v ≡ true → (lo ≤ to_ℕ v) × (to_ℕ v ≤ hi)
within_sound lo hi (pos n) e = ground arith
within_sound lo hi (negsuc n) e = cc

-- safe_atoi stays within its bounds, if its default does.
safe_atoi_bounds :
    (str : Bytes) (lo hi default_val : ℕ)
    → lo ≤ default_val
    → default_val ≤ hi
    → (lo ≤ safe_atoi str lo hi default_val) × (safe_atoi str lo hi default_val ≤ hi)
unfolding safe_atoi
safe_atoi_bounds str lo hi default_val l h = ground (arith, within_sound lo hi (strtol str).0)

cut : (size : ℕ) (val : Bytes) → length (strncpy size val) ≤ size - 1
cut size val = length-take_le (size - 1) val

-- Either configuration of a test is valid.
pick : (b : Bool) (x y : ServerConfig) → IsValid x → IsValid y → IsValid (if b then x else y)
pick true x y v w = v
pick false x y v w = w

module _ (key val : Bytes) (cfg : ServerConfig) (v : IsValid cfg) where
  set_server-IsValid : IsValid (set_server key val cfg)
  unfolding set_server
  set_server-IsValid =
      pick _ (record cfg { wg_interface = strncpy max_path_len val }) _
        (ground (arith, cut max_path_len val))
        (pick _ (record cfg { wg_conf_path = strncpy max_path_len val }) _
          (ground (arith, cut max_path_len val))
          (pick _ (record cfg { endpoint_public_addr = strncpy max_host_len val }) _
            (ground (arith, cut max_host_len val))
            (pick _ (record cfg { dns = strncpy max_ip_len val }) _
              (ground (arith, cut max_ip_len val)) v)))

  set_api-IsValid : IsValid (set_api key val cfg)
  unfolding set_api
  set_api-IsValid =
      let port = safe_atoi_bounds val 1 65535 8443 (omega arith) (omega arith) in
      pick _ (record cfg { api_listen_addr = strncpy max_ip_len val }) _
        (ground (arith, cut max_ip_len val))
        (pick _ (record cfg { api_listen_port = safe_atoi val 1 65535 8443 }) _
          (ground (arith, port))
          (pick _ (record cfg { tls_cert = strncpy max_path_len val }) _
            (ground (arith, cut max_path_len val))
            (pick _ (record cfg { tls_key = strncpy max_path_len val }) _
              (ground (arith, cut max_path_len val)) v)))

  set_db-IsValid : IsValid (set_db key val cfg)
  unfolding set_db
  set_db-IsValid =
      pick _ (record cfg { db_path = strncpy max_path_len val }) _
        (ground (arith, cut max_path_len val)) v

  set_ip_pool-IsValid : IsValid (set_ip_pool key val cfg)
  unfolding set_ip_pool
  set_ip_pool-IsValid =
      pick _ (record cfg { ip_pool_cidr = strncpy max_ip_len val }) _
        (ground (arith, cut max_ip_len val))
        (pick _ (record cfg { ip_pool_exclude = strncpy max_ip_len val }) _
          (ground (arith, cut max_ip_len val)) v)

  set_session-IsValid : IsValid (set_session key val cfg)
  unfolding set_session
  set_session-IsValid =
      let ttl = safe_atoi_bounds val 60 (86400 * 30) 3600 (omega arith) (omega arith) in
      let grace = safe_atoi_bounds val 0 86400 300 (omega arith) (omega arith) in
      let interval = safe_atoi_bounds val 5 3600 60 (omega arith) (omega arith) in
      pick _ (record cfg { session_default_ttl_seconds = safe_atoi val 60 (86400 * 30) 3600 }) _
        (ground (arith, ttl))
        (pick _ (record cfg { session_renew_grace_seconds = safe_atoi val 0 86400 300 }) _
          (ground (arith, grace))
          (pick _ (record cfg { session_reap_interval_seconds = safe_atoi val 5 3600 60 }) _
            (ground (arith, interval)) v))

  set_security-IsValid : IsValid (set_security key val cfg)
  unfolding set_security
  set_security-IsValid =
      let time = safe_atoi_bounds val 1 100 3 (omega arith) (omega arith) in
      let mem = safe_atoi_bounds val 1024 4194304 65536 (omega arith) (omega arith) in
      pick _ (record cfg { argon2_time_cost = safe_atoi val 1 100 3 }) _ (ground (arith, time))
        (pick _ (record cfg { argon2_mem_cost_kb = safe_atoi val 1024 4194304 65536 }) _
          (ground (arith, mem)) v)

set_key-IsValid :
    (section key val : Bytes) (cfg : ServerConfig)
    → IsValid cfg
    → IsValid (set_key section key val cfg)
unfolding set_key
set_key-IsValid section key val cfg v = pick _ _ _ (set_server-IsValid key val cfg v) (
    pick _ _ _ (set_api-IsValid key val cfg v) (
      pick _ _ _ (set_db-IsValid key val cfg v) (
        pick _ _ _ (set_ip_pool-IsValid key val cfg v) (
          pick _ _ _ (set_session-IsValid key val cfg v)
            (pick _ _ _ (set_security-IsValid key val cfg v) v)))))

load_pair-IsValid :
    (p section : Bytes) (cfg : ServerConfig) → IsValid cfg → IsValid (load_pair p section cfg)
unfolding load_pair
load_pair-IsValid p section cfg v = elim (Option-cases (after b'=' p)) [
  | inl absent ↦ rw (load_pair, absent) v
  | inr (rest, found) ↦
      rw (load_pair, found) (set_key-IsValid section (trim (before b'=' p)) (value_of rest) cfg v)
]

load_line-IsValid :
    (p : Bytes) (state : Bytes × ServerConfig) → IsValid state.1 → IsValid (load_line p state).1
unfolding load_line
load_line-IsValid [] (section, cfg) v = v
load_line-IsValid (c ∷ p) (section, cfg) v = elim (Bool-cases (c == b'#' || c == b';')) [
  | inl comment ↦ rw (load_line, comment) v
  | inr text ↦ elim (Bool-cases (c == b'[')) [
    | inr pair ↦ rw (load_line, text, pair) (load_pair-IsValid (c ∷ p) section cfg v)
    | inl bracket ↦ elim (Option-cases (after b']' p)) [
      | inl open_ ↦ rw (load_line, text, bracket, open_) (load_pair-IsValid (c ∷ p) section cfg v)
      | inr (rest, closed) ↦ rw (load_line, text, bracket, closed) v
    ]
  ]
]

load_lines-IsValid :
    (lines : List Bytes) (state : Bytes × ServerConfig)
    → IsValid state.1
    → IsValid (load_lines lines state).1
unfolding load_lines
load_lines-IsValid [] state v = v
load_lines-IsValid (line ∷ lines) state v =
    load_lines-IsValid lines _ (load_line-IsValid (trim (to_nul line)) state v)

default_config-IsValid : IsValid default_config
default_config-IsValid = record {
  wg_interface = omega arith;
  wg_conf_path = omega arith;
  endpoint = omega arith;
  dns = omega arith;
  listen_addr = omega arith;
  port_lo = omega arith;
  port_hi = omega arith;
  cert = omega arith;
  key = omega arith;
  path = omega arith;
  cidr = omega arith;
  exclude = omega arith;
  ttl_lo = omega arith;
  ttl_hi = omega arith;
  grace = omega arith;
  reap_lo = omega arith;
  reap_hi = omega arith;
  time_lo = omega arith;
  time_hi = omega arith;
  mem_lo = omega arith;
  mem_hi = omega arith;
}

-- Whatever the file holds, or if there is none, each text of the configuration fits its buffer with
-- its NUL, the port is from 1 to 65535, and every time and cost is in the range that load_config
-- asks for.
pub load_config-IsValid : (file : Option Bytes) → IsValid (load_config file).0
unfolding load_config
load_config-IsValid none = default_config-IsValid
load_config-IsValid (some file) =
    load_lines-IsValid (fgets_all 511 511 [] file) ([], default_config) default_config-IsValid
