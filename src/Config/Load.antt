-- ===== src/Config/Load.antt =====
-- load_config, over the bytes of the file.
use wg_auth.Base.{
  ℕ, ◌-◌, ◌*◌, Bool, true, ◌||◌, not, List, [], ◌∷◌, ◌++◌, Option, none, some, Bytes, codes, str_eq,
  strncpy, before, after, leb, ◌==◌, if◌then◌else◌, Rc, success, failure,
}
use wg_auth.Config.{ServerConfig, default_config}
use wg_auth.Libc.{strtol, within, to_ℕ, is_space, skip_space}

abbrev pub max_path_len : ℕ
max_path_len = 256

abbrev pub max_host_len : ℕ
max_host_len = 128

abbrev pub max_ip_len : ℕ
max_ip_len = 64

-- What safe_atoi accepts behind the digits.
abbrev ends_number : Bytes → Bool
ends_number [] = true
ends_number (c ∷ rest) = c == b'\n' || c == b'\r' || c == b' '

-- Every bound that the callers give is at least 0.
unfoldable pub safe_atoi : Bytes → ℕ → ℕ → ℕ → ℕ
safe_atoi str min_val max_val default_val =
    let (v, end) = strtol str in
    if not (ends_number end)
    then default_val
    else if not (within min_val max_val v)
    then default_val
    else to_ℕ v

unfoldable pub trim_end : Bytes → Bytes
trim_end [] = []
trim_end (c ∷ s) = elim (trim_end s) [
  | [] ↦ if is_space c then [] else c ∷ []
  | d ∷ rest ↦ c ∷ d ∷ rest
]

-- After the first loop of trim the text is empty or begins with no white space.
unfoldable pub trim : Bytes → Bytes
trim s = trim_end (skip_space s)

-- The calls of fgets with a buffer for `size` bytes and a NUL: each line with its newline, and a
-- line that is longer in pieces. `room` more bytes fit behind `line`.
unfoldable pub fgets_all : ℕ → ℕ → Bytes → Bytes → List Bytes
fgets_all size room [] [] = []
fgets_all size room (c ∷ line) [] = (c ∷ line) ∷ []
fgets_all size room line (c ∷ file) =
    let next = fgets_all size size [] file in
    let further = fgets_all size (room - 1) (line ++ c ∷ []) file in
    if c == b'\n' || leb room 1 then (line ++ c ∷ []) ∷ next else further

-- What a C string function sees of a buffer.
unfoldable pub to_nul : Bytes → Bytes
to_nul [] = []
to_nul (c ∷ s) = if c == 0 then [] else c ∷ to_nul s

-- One function for each section: the key, the value, and the configuration.
unfoldable pub set_server : Bytes → Bytes → ServerConfig → ServerConfig
set_server key val cfg =
    if str_eq key (codes "wg_interface")
    then record cfg { wg_interface = strncpy max_path_len val }
    else if str_eq key (codes "wg_conf_path")
    then record cfg { wg_conf_path = strncpy max_path_len val }
    else if str_eq key (codes "endpoint_public_addr")
    then record cfg { endpoint_public_addr = strncpy max_host_len val }
    else if str_eq key (codes "dns")
    then record cfg { dns = strncpy max_ip_len val }
    else cfg

unfoldable pub set_api : Bytes → Bytes → ServerConfig → ServerConfig
set_api key val cfg =
    if str_eq key (codes "listen_addr")
    then record cfg { api_listen_addr = strncpy max_ip_len val }
    else if str_eq key (codes "listen_port")
    then record cfg { api_listen_port = safe_atoi val 1 65535 8443 }
    else if str_eq key (codes "tls_cert")
    then record cfg { tls_cert = strncpy max_path_len val }
    else if str_eq key (codes "tls_key")
    then record cfg { tls_key = strncpy max_path_len val }
    else cfg

unfoldable pub set_db : Bytes → Bytes → ServerConfig → ServerConfig
set_db key val cfg =
    if str_eq key (codes "path") then record cfg { db_path = strncpy max_path_len val } else cfg

unfoldable pub set_ip_pool : Bytes → Bytes → ServerConfig → ServerConfig
set_ip_pool key val cfg =
    if str_eq key (codes "cidr")
    then record cfg { ip_pool_cidr = strncpy max_ip_len val }
    else if str_eq key (codes "exclude")
    then record cfg { ip_pool_exclude = strncpy max_ip_len val }
    else cfg

unfoldable pub set_session : Bytes → Bytes → ServerConfig → ServerConfig
set_session key val cfg =
    if str_eq key (codes "default_ttl_seconds")
    then record cfg { session_default_ttl_seconds = safe_atoi val 60 (86400 * 30) 3600 }
    else if str_eq key (codes "renew_grace_seconds")
    then record cfg { session_renew_grace_seconds = safe_atoi val 0 86400 300 }
    else if str_eq key (codes "reap_interval_seconds")
    then record cfg { session_reap_interval_seconds = safe_atoi val 5 3600 60 }
    else cfg

unfoldable pub set_security : Bytes → Bytes → ServerConfig → ServerConfig
set_security key val cfg =
    if str_eq key (codes "argon2_time_cost")
    then record cfg { argon2_time_cost = safe_atoi val 1 100 3 }
    else if str_eq key (codes "argon2_mem_cost_kb")
    then record cfg { argon2_mem_cost_kb = safe_atoi val 1024 4194304 65536 }
    else cfg

unfoldable pub set_key : Bytes → Bytes → Bytes → ServerConfig → ServerConfig
set_key section key val cfg =
    if str_eq section (codes "server")
    then set_server key val cfg
    else if str_eq section (codes "api")
    then set_api key val cfg
    else if str_eq section (codes "db")
    then set_db key val cfg
    else if str_eq section (codes "ip_pool")
    then set_ip_pool key val cfg
    else if str_eq section (codes "session")
    then set_session key val cfg
    else if str_eq section (codes "security")
    then set_security key val cfg
    else cfg

-- The value behind the '=', without its comment.
unfoldable pub value_of : Bytes → Bytes
value_of text =
    let val = trim text in
    elim (after b';' val) [ none ↦ val | some comment ↦ trim (before b';' val) ]

-- A line that is neither empty, nor a comment, nor a section.
unfoldable pub load_pair : Bytes → Bytes → ServerConfig → ServerConfig
load_pair p section cfg = elim (after b'=' p) [
  | none ↦ cfg
  | some rest ↦ set_key section (trim (before b'=' p)) (value_of rest) cfg
]

-- One line, trimmed, with the section it stands in.
unfoldable pub load_line : Bytes → Bytes × ServerConfig → Bytes × ServerConfig
load_line [] (section, cfg) = (section, cfg)
load_line (c ∷ p) (section, cfg) =
    if c == b'#' || c == b';'
    then (section, cfg)
    else if c == b'['
    then elim (after b']' p) [
      | none ↦ (section, load_pair (c ∷ p) section cfg)
      | some rest ↦ (strncpy 64 (before b']' p), cfg)
    ]
    else (section, load_pair (c ∷ p) section cfg)

unfoldable pub load_lines : List Bytes → Bytes × ServerConfig → Bytes × ServerConfig
load_lines [] state = state
load_lines (line ∷ lines) state = load_lines lines (load_line (trim (to_nul line)) state)

-- `none` is a file that does not open; the defaults then stand.
unfoldable pub load_config : Option Bytes → ServerConfig × Rc
load_config none = (default_config, failure)
load_config (some file) = ((load_lines (fgets_all 511 511 [] file) ([], default_config)).1, success)
