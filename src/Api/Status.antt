-- ===== src/Api/Status.antt =====
-- handle_status. It changes nothing, so it returns the response alone.
pub mod Laws
use wg_auth.Base.{
  ℕ, true, false, not, [], ◌∷◌, Option, none, some, Bytes, codes, ltb, ◌==◌, if◌then◌else◌, inl,
  inr,
}
use wg_auth.Api.{send_json_response, send_error, session_of_token, device_key}
use wg_auth.Config.{ServerConfig}
use wg_auth.Db.{Session}
use wg_auth.External.{External}
use wg_auth.Server.{Server, Calls, string, number, Fields, Reply}
use wg_auth.WgCtl.{Stats, wgctl_get_peer_stats}

-- strncmp(s, prefix, strlen(prefix)) == 0, and what follows the prefix.
unfoldable pub strip_prefix : Bytes → Bytes → Option Bytes
strip_prefix [] s = some s
strip_prefix (c ∷ prefix) [] = none
strip_prefix (c ∷ prefix) (d ∷ s) = if c == d then strip_prefix prefix s else none

-- The token of the Authorization header; `none` for a missing or an empty one.
unfoldable pub bearer_token : Option Bytes → Option Bytes
bearer_token none = none
bearer_token (some auth) = elim (strip_prefix (codes "Bearer ") auth) [
  | none ↦ none
  | some [] ↦ none
  | some (c ∷ token) ↦ some (c ∷ token)
]

abbrev pub no_stats : Stats
no_stats = record { rx = 0; tx = 0; handshake = 0 }

abbrev pub status_fields : Session → Stats → Fields
status_fields sess stats =
    ("status", string (codes "active"))
    ∷ ("allowed_ip", string sess.allowed_ip)
    ∷ ("expires_at", number sess.expires_at)
    ∷ ("rx_bytes", number stats.rx)
    ∷ ("tx_bytes", number stats.tx)
    ∷ ("last_handshake_time", number stats.handshake)
    ∷ []

module _ {K : Type 0} (ext : External K) (cfg : ServerConfig) (calls : Calls) where
  -- Zeros where the key does not decode or the interface has no such peer.
  unfoldable pub peer_stats : Session → Server K → Stats
  peer_stats sess st = elim (device_key ext sess) [
    | none ↦ no_stats
    | some key ↦ elim (wgctl_get_peer_stats ext.wg cfg.wg_interface key st.kernel) [
      | none ↦ no_stats
      | some stats ↦ stats
    ]
  ]

  unfoldable pub status_session : Session → Server K → Reply
  status_session sess st =
      if not (sess.revoked == 0)
      then send_error calls "Session revoked" 403
      else if ltb sess.expires_at calls.check_time
      then send_error calls "Session expired" 403
      else send_json_response calls (status_fields sess (peer_stats sess st)) 200

  unfoldable pub handle_status : Option Bytes → Server K → Reply
  handle_status authorization st = elim (bearer_token authorization) [
    | none ↦ send_error calls "Missing token" 401
    | some token ↦ elim (session_of_token calls token st.db) [
      | inr reply ↦ reply
      | inl sess ↦ status_session sess st
    ]
  ]
