-- ===== src/Api.antt =====
-- server/src/api_handlers.c: the parts that its handlers share. The handlers are in the modules
-- below.
pub mod Replies
pub mod Lookup
pub mod Written
pub mod Sequel
pub mod Login
pub mod Logout
pub mod Renew
pub mod Status
pub mod Connections
pub mod Router
pub mod Listener
use wg_auth.Base.{
  ℕ, Bool, true, false, [], ◌∷◌, Option, none, some, Bytes, String, codes, if◌then◌else◌, length,
  ltb, ◌||◌, ◌==◌, ◌⊎◌, inl, inr, not,
}
use wg_auth.Db.{Db, Session, db_get_session_by_token}
use wg_auth.Auth.{wg_key_len}
use wg_auth.External.{External, Inet, Item, text, other}
use wg_auth.Server.{Calls, string, Fields, Reply, respond}

-- The address that MHD_get_connection_info gives.
pub data ClientAddress : Type 0 where
  none_known : ClientAddress
  inet_address : ℕ → ClientAddress
  inet6_address : ℕ → ClientAddress
  other_family : ClientAddress

unfoldable pub get_client_ip : Inet → ClientAddress → Bytes
get_client_ip net none_known = codes "unknown"
get_client_ip net (inet_address a) = net.ntop a
get_client_ip net (inet6_address a) = net.ntop6 a
get_client_ip net other_family = codes "unknown"

-- With no memory for the text, a fixed message with status 500 is sent.
unfoldable pub send_json_response : Calls → Fields → ℕ → Reply
send_json_response calls fields status =
    if calls.printed
    then respond status fields
    else respond 500 (("error", string (codes "internal error")) ∷ [])

-- {"error": message}
abbrev pub send_error : Calls → String → ℕ → Reply
send_error calls message status =
    send_json_response calls (("error", string (codes message)) ∷ []) status

-- cJSON_IsString and valuestring
abbrev pub valuestring : Item → Option Bytes
valuestring (text s) = some s
valuestring other = none

-- token_len < 20 || token_len > 128
abbrev pub bad_token_length : Bytes → Bool
bad_token_length token = ltb (length token) 20 || ltb 128 (length token)

-- The row of a token, or the response that there is none: the part that all three handlers of a
-- session begin with.
unfoldable pub session_of_token : Calls → Bytes → Db → Session ⊎ Reply
session_of_token calls token db =
    if bad_token_length token
    then inr (send_error calls "Invalid token format" 400)
    else elim (db_get_session_by_token calls.select_run token db) [
      | none ↦ inr (send_error calls "Session not found" 404)
      | some sess ↦ inl sess
    ]

-- !c_token || !cJSON_IsString(c_token)
unfoldable pub session_of_item : Calls → Option Item → Db → Session ⊎ Reply
session_of_item calls none db = inr (send_error calls "Missing session_token" 400)
session_of_item calls (some other) db = inr (send_error calls "Missing session_token" 400)
session_of_item calls (some (text token)) db = session_of_token calls token db

module _ {K : Type 0} (ext : External K) where
  -- The part that handle_logout and handle_renew begin with.
  unfoldable pub session_of_body : Calls → Bytes → Db → Session ⊎ Reply
  session_of_body calls body db = elim (ext.parse_json body) [
    | none ↦ inr (send_error calls "Invalid JSON" 400)
    | some json ↦ session_of_item calls (json "session_token") db
  ]

  -- The key in a session's row, if it decodes to 32 bytes.
  unfoldable pub device_key : Session → Option Bytes
  device_key sess = elim (ext.from_base64 wg_key_len sess.device_pubkey) [
    | none ↦ none
    | some key ↦ if not (length key == wg_key_len) then none else some key
  ]
