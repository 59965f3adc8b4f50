-- ===== src/Client/Tunnel.antt =====
-- client/src/client_wg.c: the tunnel's interface, its address and its routes. calloc is taken to
-- succeed.
pub mod Texts
pub mod Commands
use wg_auth.Base.{
  ℕ, ◌+◌, Bool, true, false, ◌&&◌, ◌||◌, not, List, [], ◌∷◌, ◌++◌, Option, none, some, Bytes, codes,
  str_eq, strncpy, before, after, ◌==◌, if◌then◌else◌, Rc, success, failure,
}
use wg_auth.Client.Api.{ClientConfig}
use wg_auth.Client.{
  Endpoint, endpoint, Resolved, address, other_family, ServerPeer, ClientDevice, Machine,
}
use wg_auth.External.{Inet, Family, inet, inet6, AllowedIp}
use wg_auth.Libc.{ℤ, pos, atoi}
use wg_auth.WgCtl.StaticConfig.{to_u16}
use wg_auth.WgCtl.{to_u8}

-- strrchr: what stands before and behind the last `c`.
unfoldable pub split_last : ℕ → Bytes → Option (Bytes × Bytes)
split_last c [] = none
split_last c (x ∷ s) = elim (split_last c s) [
  | some (front, back) ↦ some (x ∷ front, back)
  | none ↦ if x == c then some ([], s) else none
]

-- The address of an endpoint, with its port.
abbrev pub with_port : ℕ → Option Resolved → Option Endpoint
with_port port none = none
with_port port (some other_family) = none
with_port port (some (address family a)) = some (endpoint family a port)

-- The mask behind the slash, or the default of the family.
abbrev pub allowed : Family → Option Bytes → ℤ → ℕ → AllowedIp
allowed family slash default a = record {
  family = family;
  address = a;
  cidr = to_u8 (elim slash [ none ↦ default | some digits ↦ atoi digits ]);
}

unfoldable pub parse_allowed_ip : Inet → Bytes → Option AllowedIp
parse_allowed_ip net cidr =
    let text = strncpy 64 cidr in
    let ip = before b'/' text in
    let slash = after b'/' text in
    elim (net.pton ip) [
      | some a ↦ some (allowed inet slash (pos 32) a)
      | none ↦ elim (net.pton6 ip) [ some a ↦ some (allowed inet6 slash (pos 128) a) | none ↦ none ]
    ]

-- A token that is complete, if it is not empty.
abbrev pub flush : Bytes → List Bytes → List Bytes
flush [] tokens = tokens
flush (c ∷ token) tokens = (c ∷ token) ∷ tokens

-- The tokens that the loop over the C library's strtok(…, ", ") is given: the longest runs of
-- other bytes, in their order. `token` has been read.
unfoldable pub strtok : Bytes → Bytes → List Bytes
strtok token [] = flush token []
strtok token (c ∷ s) =
    let apart = flush token (strtok [] s) in
    let longer = strtok (token ++ c ∷ []) s in if c == b',' || c == b' ' then apart else longer

unfoldable pub parse_allowed_ips : Inet → List Bytes → List AllowedIp
parse_allowed_ips net [] = []
parse_allowed_ips net (token ∷ tokens) = elim (parse_allowed_ip net token) [
  | none ↦ parse_allowed_ips net tokens
  | some aip ↦ aip ∷ parse_allowed_ips net tokens
]

-- The tokens of the copy of config->allowed_ips.
abbrev pub allowed_tokens : ClientConfig → List Bytes
allowed_tokens config = strtok [] (strncpy 256 config.allowed_ips)

-- The commands, as snprintf writes them to a buffer of 512 bytes.
abbrev pub link_command : Bytes → Bytes
link_command ifname = strncpy 512 (codes "ip link set up dev " ++ ifname)

abbrev pub addr_command : Bytes → Bytes → Bytes
addr_command client_address ifname =
    strncpy 512 (codes "ip addr add " ++ (client_address ++ (codes " dev " ++ ifname)))

abbrev pub route_command : Bytes → Bytes → Bytes
route_command token ifname =
    strncpy 512
      (codes "ip route add " ++ (token ++ (codes " dev " ++ (ifname ++ codes " 2>/dev/null"))))

abbrev pub del_command : Bytes → Bytes
del_command ifname = strncpy 512 (codes "ip link del dev " ++ (ifname ++ codes " 2>/dev/null"))

abbrev pub is_default_route : Bytes → Bool
is_default_route token = str_eq token (codes "0.0.0.0/0") || str_eq token (codes "::/0")

module _ {K : Type 0} (m : Machine K) where
  unfoldable pub resolve_endpoint : Bytes → Option Endpoint
  resolve_endpoint endpoint_str = elim (split_last b':' (strncpy 256 endpoint_str)) [
    | none ↦ none
    | some (host, port) ↦ with_port (to_u16 (atoi port)) (m.getaddrinfo host)
  ]

  -- A preshared key that does not decode is left out.
  unfoldable pub preshared : Bytes → Option Bytes
  preshared [] = none
  preshared (c ∷ b64) = m.wg_key_from_base64 (c ∷ b64)

  -- The device and its peer; `none` for a bad key or endpoint.
  unfoldable pub tunnel_of : Bytes → ClientConfig → Option ClientDevice
  tunnel_of ifname config = elim (m.wg_key_from_base64 config.client_private_key_b64) [
    | none ↦ none
    | some private_key ↦ elim (m.wg_key_from_base64 config.server_public_key_b64) [
      | none ↦ none
      | some public_key ↦ elim (resolve_endpoint config.endpoint) [
        | none ↦ none
        | some e ↦ some (record {
          name = strncpy 16 ifname;
          private_key = private_key;
          replace_peers = true;
          peer = record {
            public_key = public_key;
            preshared_key = preshared config.preshared_key_b64;
            endpoint_addr = e;
            persistent_keepalive_interval = 25;
            replace_allowedips = true;
            allowed_ips = parse_allowed_ips m.net (allowed_tokens config);
          };
        })
      ]
    ]
  ]

  -- The results of these commands are not looked at.
  unfoldable pub add_routes : Bytes → List Bytes → K → K
  add_routes ifname [] k = k
  add_routes ifname (token ∷ tokens) k =
      add_routes ifname tokens
        (if is_default_route token then k else (m.system (route_command token ifname) k).0)

  -- The address has been set.
  unfoldable pub routed : Bytes → ClientConfig → K × ℕ → K × Rc
  routed ifname config (k, status) =
      if status == 0 then (add_routes ifname (allowed_tokens config) k, success) else (k, failure)

  -- The interface has been brought up.
  unfoldable pub addressed : Bytes → ClientConfig → K × ℕ → K × Rc
  addressed ifname config (k, status) =
      if status == 0
      then routed ifname config (m.system (addr_command config.client_address ifname) k)
      else (k, failure)

  -- wg_set_device has answered.
  unfoldable pub configured : Bytes → ClientConfig → K × Rc → K × Rc
  configured ifname config (k, failure) = (k, failure)
  configured ifname config (k, success) = addressed ifname config (m.system (link_command ifname) k)

  -- wg_add_device has answered.
  unfoldable pub created : Bytes → ClientConfig → K × Rc → K × Rc
  created ifname config (k, failure) = (k, failure)
  created ifname config (k, success) = elim (tunnel_of ifname config) [
    | none ↦ (k, failure)
    | some tunnel ↦ configured ifname config (m.wg_set_device tunnel k)
  ]

  unfoldable pub client_wg_up : Bytes → ClientConfig → K → K × Rc
  client_wg_up ifname config k =
      created ifname config (m.wg_add_device ifname (m.wg_del_device ifname k))

  unfoldable pub client_wg_down : Bytes → K → K
  client_wg_down ifname k = m.wg_del_device ifname (m.system (del_command ifname) k).0
