-- ===== src/Client/Api.antt =====
-- client/src/client_api.c: the requests of the client, and what it takes from the responses.
pub mod Replies
pub mod Wire
pub mod Sequel
use wg_auth.Base.{
  ℕ, ◌+◌, Bool, true, false, ◌&&◌, not, List, [], ◌∷◌, ◌++◌, Option, none, some, Bytes, String,
  codes, strncpy, ltb, ◌==◌, if◌then◌else◌, length, Rc, success, failure,
}
use wg_auth.Client.{
  PostFields, fields, size_zero, unset, Member, string, number, other, Response, HttpRequest,
  Transfer, Http,
}
use wg_auth.Config.Load.{to_nul}
use wg_auth.Libc.{ℤ, pos}

-- g_server_url, g_ca_cert_path and g_insecure
pub record Settings : Type 0 where
  pub server_url : Bytes
  pub ca_cert_path : Bytes
  pub insecure : Bool

-- wg_client_config_t
pub record ClientConfig : Type 0 where
  pub session_token : Bytes
  pub client_private_key_b64 : Bytes
  pub client_address : Bytes
  pub server_public_key_b64 : Bytes
  pub preshared_key_b64 : Bytes
  pub endpoint : Bytes
  pub allowed_ips : Bytes
  pub dns : Bytes
  pub expires_at : ℤ

-- wg_client_status_t
pub record ClientStatus : Type 0 where
  pub rx_bytes : ℤ
  pub tx_bytes : ℤ
  pub last_handshake_time : ℤ
  pub expires_at : ℤ

-- A NULL path of the certificate is an empty one.
unfoldable pub client_api_init : Bytes → Bytes → Bool → Settings
client_api_init server_url ca_cert_path insecure = record {
  server_url = strncpy 256 server_url;
  ca_cert_path = strncpy 256 ca_cert_path;
  insecure = insecure;
}

-- The memory with one more part; `none` is the 0 that makes curl fail.
unfoldable pub write_memory_cb : Bool → Bytes → Bytes → Option Bytes
write_memory_cb memory mem contents = if memory then some (mem ++ contents) else none

unfoldable pub write_parts : List (Bool × Bytes) → Bytes → Option Bytes
write_parts [] mem = some mem
write_parts ((memory, contents) ∷ parts) mem = elim (write_memory_cb memory mem contents) [
  | none ↦ none
  | some mem' ↦ write_parts parts mem'
]

abbrev pub auth_header : Bytes → Bytes
auth_header token = strncpy 256 (codes "Authorization: Bearer " ++ token)

abbrev pub auth_headers : Option Bytes → List Bytes
auth_headers none = []
auth_headers (some token) = auth_header token ∷ []

-- CURLOPT_CAINFO, which is set only for a verified connection.
abbrev pub ca_info : Settings → Option Bytes
ca_info s =
    if s.insecure then none else elim s.ca_cert_path [ [] ↦ none | c ∷ path ↦ some (c ∷ path) ]

abbrev pub post_request : Settings → Bytes → Option Bytes → Option Bytes → HttpRequest
post_request s path json_body auth_token = record {
  url = strncpy 512 (s.server_url ++ path);
  headers = codes "Content-Type: application/json" ∷ auth_headers auth_token;
  post_fields = elim json_body [ none ↦ size_zero | some text ↦ fields text ];
  verifies = not s.insecure;
  ca_cert = ca_info s;
}

abbrev pub get_request : Settings → Bytes → Option Bytes → HttpRequest
get_request s path auth_token = record {
  url = strncpy 512 (s.server_url ++ path);
  headers = auth_headers auth_token;
  post_fields = unset;
  verifies = not s.insecure;
  ca_cert = ca_info s;
}

module _ {N : Type 0} (http : Http N) where
  -- http_code == 200 && chunk.size > 0
  unfoldable pub read_response : Option Transfer → Option Response
  read_response none = none
  read_response (some t) = elim (write_parts t.parts []) [
    | none ↦ none
    | some mem ↦
        if t.http_code == 200 && ltb 0 (length mem) then http.parse_json (to_nul mem) else none
  ]

  unfoldable pub do_post : Settings → Bytes → Option Bytes → Option Bytes → N → N × Option Response
  do_post s path json_body auth_token n =
      let (n', transfer) = http.perform (post_request s path json_body auth_token) n in
      (n', read_response transfer)

  unfoldable pub do_get : Settings → Bytes → Option Bytes → N → N × Option Response
  do_get s path auth_token n =
      let (n', transfer) = http.perform (get_request s path auth_token) n in
      (n', read_response transfer)

-- The string that is copied for an item.
abbrev pub string_of : Option Member → Bytes
string_of none = []
string_of (some (string s)) = s
string_of (some (number v)) = []
string_of (some other) = []

unfoldable pub copy_string_field : Response → String → ℕ → Bytes
copy_string_field obj key dest_size = strncpy dest_size (string_of (obj key))

-- The number of an item; `old` where it is none.
abbrev pub number_of : ℤ → Option Member → ℤ
number_of old none = old
number_of old (some (string s)) = old
number_of old (some (number v)) = v
number_of old (some other) = old

-- What client_api_login writes to its zeroed out_config.
unfoldable pub config_of : Response → ClientConfig
config_of resp = record {
  session_token = copy_string_field resp "session_token" 64;
  client_private_key_b64 = copy_string_field resp "client_private_key" 64;
  client_address = copy_string_field resp "client_address" 64;
  server_public_key_b64 = copy_string_field resp "server_public_key" 64;
  preshared_key_b64 = copy_string_field resp "preshared_key" 64;
  endpoint = copy_string_field resp "endpoint" 128;
  allowed_ips = copy_string_field resp "allowed_ips" 256;
  dns = copy_string_field resp "dns" 64;
  expires_at = number_of (pos 0) (resp "expires_at");
}

-- A configuration with no token is a failure.
abbrev pub with_token : ClientConfig → Option ClientConfig
with_token config = elim config.session_token [ [] ↦ none | c ∷ token ↦ some config ]

abbrev pub status_of : Response → ClientStatus
status_of resp = record {
  rx_bytes = number_of (pos 0) (resp "rx_bytes");
  tx_bytes = number_of (pos 0) (resp "tx_bytes");
  last_handshake_time = number_of (pos 0) (resp "last_handshake_time");
  expires_at = number_of (pos 0) (resp "expires_at");
}

module _ {N : Type 0} (http : Http N) (s : Settings) where
  unfoldable pub client_api_login : Bytes → Bytes → N → N × Option ClientConfig
  client_api_login username password n =
      let req_str = http.print_strings (("username", username) ∷ ("password", password) ∷ []) in
      let (n', resp) = do_post http s (codes "/login") req_str none n in
      (n', elim resp [ none ↦ none | some obj ↦ with_token (config_of obj) ])

  -- {"session_token": …} to a path, with the token in the header too.
  unfoldable pub post_token : Bytes → Bytes → N → N × Option Response
  post_token path token n =
      do_post http s path (http.print_strings (("session_token", token) ∷ [])) (some token) n

  unfoldable pub client_api_logout : Bytes → N → N × Rc
  client_api_logout token n =
      let (n', resp) = post_token (codes "/logout") token n in
      (n', elim resp [ none ↦ failure | some obj ↦ success ])

  -- *out_new_expiry, which is `old` before; `none` is the -1.
  unfoldable pub client_api_renew : Bytes → ℤ → N → N × Option ℤ
  client_api_renew token old n =
      let (n', resp) = post_token (codes "/renew") token n in
      (n', elim resp [ none ↦ none | some obj ↦ some (number_of old (obj "expires_at")) ])

  unfoldable pub client_api_status : Bytes → N → N × Option ClientStatus
  client_api_status token n =
      let (n', resp) = do_get http s (codes "/status") (some token) n in
      (n', elim resp [ none ↦ none | some obj ↦ some (status_of obj) ])
