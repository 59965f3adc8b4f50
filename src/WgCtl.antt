-- ===== src/WgCtl.antt =====
-- server/src/wg_ctl.c: the requests that the server sends to the WireGuard library for one peer.
pub mod StaticConfig
use wg_auth.Base.{
  ℕ, ◌-◌, ◌%◌, Bool, true, false, List, [], ◌∷◌, Option, none, some, Bytes, strncpy, before, after,
  str_eq, if◌then◌else◌, Rc, replicate,
}
use wg_auth.External.{Inet, Family, inet, inet6, AllowedIp, WgPeer, WgDevice, WgLib}
use wg_auth.Libc.{ℤ, pos, negsuc, atoi}

-- The conversion of an `int` to `uint8_t`.
abbrev pub to_u8 : ℤ → ℕ
to_u8 (pos n) = n % 256
to_u8 (negsuc n) = 255 - n % 256

-- The text holds this byte.
abbrev pub has : ℕ → Bytes → Bool
has c s = elim (after c s) [ none ↦ false | some rest ↦ true ]

abbrev pub allow : Family → ℤ → ℕ → AllowedIp
allow family prefix address = record { family = family; address = address; cidr = to_u8 prefix }

unfoldable pub parse_allowed_ip : Inet → Bytes → Option AllowedIp
parse_allowed_ip net cidr =
    let text = strncpy 64 cidr in
    let ip = before b'/' text in
    let prefix : ℤ = elim (after b'/' text) [ none ↦ pos 32 | some digits ↦ atoi digits ] in
    if has b':' ip
    then elim (net.pton6 ip) [ none ↦ none | some a ↦ some (allow inet6 prefix a) ]
    else elim (net.pton ip) [ none ↦ none | some a ↦ some (allow inet prefix a) ]

abbrev pub zero_key : Bytes
zero_key = replicate 32 0

-- A zeroed wg_peer with this key.
abbrev pub peer_with : Bytes → WgPeer
peer_with key = record {
  remove_me = false;
  replace_allowedips = false;
  has_public_key = true;
  has_preshared_key = false;
  public_key = key;
  preshared_key = zero_key;
  last_handshake_time = 0;
  rx_bytes = 0;
  tx_bytes = 0;
  allowed_ips = [];
}

-- A zeroed wg_device with this name (IFNAMSIZ is 16) and one peer.
abbrev pub device_with : Bytes → WgPeer → WgDevice
device_with ifname peer = record {
  name = strncpy 16 ifname;
  has_private_key = false;
  has_listen_port = false;
  public_key = zero_key;
  private_key = zero_key;
  listen_port = 0;
  peers = peer ∷ [];
}

abbrev with_psk : Option Bytes → WgPeer → WgPeer
with_psk none peer = peer
with_psk (some psk) peer = record peer { has_preshared_key = true; preshared_key = psk }

abbrev with_allowed_ip : Option AllowedIp → WgPeer → WgPeer
with_allowed_ip none peer = peer
with_allowed_ip (some allowed) peer = record peer { allowed_ips = allowed ∷ [] }

-- The peer that wgctl_add_peer sends. One whose address does not parse is sent without.
abbrev pub added_peer : Inet → Bytes → Option Bytes → Bytes → WgPeer
added_peer net pubkey psk cidr =
    with_allowed_ip (parse_allowed_ip net cidr)
      (with_psk psk (record (peer_with pubkey) { replace_allowedips = true }))

abbrev pub removed_peer : Bytes → WgPeer
removed_peer pubkey = record (peer_with pubkey) { remove_me = true }

-- rx_bytes, tx_bytes and last_handshake_time
pub record Stats : Type 0 where
  pub rx : ℕ
  pub tx : ℕ
  pub handshake : ℕ

unfoldable pub find_stats : Bytes → List WgPeer → Option Stats
find_stats key [] = none
find_stats key (p ∷ rest) =
    if str_eq p.public_key key
    then some (record { rx = p.rx_bytes; tx = p.tx_bytes; handshake = p.last_handshake_time })
    else find_stats key rest

module _ {K : Type 0} (net : Inet) (wg : WgLib K) where
  unfoldable pub wgctl_add_peer : Bytes → Bytes → Option Bytes → Bytes → K → K × Rc
  wgctl_add_peer ifname pubkey psk cidr k =
      wg.wg_set_device (device_with ifname (added_peer net pubkey psk cidr)) k

module _ {K : Type 0} (wg : WgLib K) where
  unfoldable pub wgctl_remove_peer : Bytes → Bytes → K → K × Rc
  wgctl_remove_peer ifname pubkey k = wg.wg_set_device (device_with ifname (removed_peer pubkey)) k

  -- `none` is the -1: no device, or no such peer.
  unfoldable pub wgctl_get_peer_stats : Bytes → Bytes → K → Option Stats
  wgctl_get_peer_stats ifname pubkey k = elim (wg.wg_get_device ifname k) [
    | none ↦ none
    | some dev ↦ find_stats pubkey dev.peers
  ]

  unfoldable pub wgctl_get_server_pubkey : Bytes → K → Option Bytes
  wgctl_get_server_pubkey ifname k = elim (wg.wg_get_device ifname k) [
    | none ↦ none
    | some dev ↦ some dev.public_key
  ]
