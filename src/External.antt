-- ===== src/External.antt =====
-- What the server calls and this repository does not implement, as records of operations: address
-- conversion, the embeddable WireGuard library, libsodium and cJSON. The documented behaviour that
-- theorems rest on is a record of laws of its own.
use wg_auth.Base.{
  ℕ, ◌^◌, ◌≤◌, ◌<◌, ◌≡◌, Bool, true, List, Option, some, Bytes, String, Lacks, length, Rc,
}

-- arpa/inet.h. An address is a number in host byte order.
pub record Inet : Type 0 where
  -- inet_pton(AF_INET, …) and ntohl; `none` where it does not return 1.
  pub pton : Bytes → Option ℕ
  -- htonl and inet_ntop(AF_INET, …).
  pub ntop : ℕ → Bytes
  -- The same for AF_INET6.
  pub pton6 : Bytes → Option ℕ
  pub ntop6 : ℕ → Bytes

-- The dotted form reads back, fits INET_ADDRSTRLEN and holds no slash; an address has 32 bits.
pub record InetLaws (net : Inet) : Type 0 where
  pub pton-ntop : (a : ℕ) → a < 2 ^ 32 → net.pton (net.ntop a) ≡ some a
  pub pton_lt : (s : Bytes) (a : ℕ) → net.pton s ≡ some a → a < 2 ^ 32
  pub length-ntop : (a : ℕ) → a < 2 ^ 32 → length (net.ntop a) ≤ 15
  pub ntop-Lacks : (a : ℕ) → a < 2 ^ 32 → Lacks b'/' (net.ntop a)

-- wg_allowedip
pub data Family : Type 0 where
  inet inet6 : Family

pub record AllowedIp : Type 0 where
  pub family : Family
  pub address : ℕ
  pub cidr : ℕ

-- wg_peer, its flags one by one.
pub record WgPeer : Type 0 where
  pub remove_me : Bool
  pub replace_allowedips : Bool
  pub has_public_key : Bool
  pub has_preshared_key : Bool
  pub public_key : Bytes
  pub preshared_key : Bytes
  pub last_handshake_time : ℕ
  pub rx_bytes : ℕ
  pub tx_bytes : ℕ
  pub allowed_ips : List AllowedIp

-- wg_device, without the fields that the server leaves at zero.
pub record WgDevice : Type 0 where
  pub name : Bytes
  pub has_private_key : Bool
  pub has_listen_port : Bool
  pub public_key : Bytes
  pub private_key : Bytes
  pub listen_port : ℕ
  pub peers : List WgPeer

-- The library, over the kernel's interfaces `K`. `failure` is a negative result.
pub record WgLib (K : Type 0) : Type 0 where
  pub wg_set_device : WgDevice → K → K × Rc
  pub wg_get_device : Bytes → K → Option WgDevice
  pub wg_add_device : Bytes → K → K

-- An item of a JSON object: `valuestring` is NULL unless the item is a string.
pub data Item : Type 0 where
  text : Bytes → Item
  other : Item

abbrev pub JsonObject : Type 0
JsonObject = String → Option Item

-- libsodium and cJSON.
pub record External (K : Type 0) : Type 0 where
  pub net : Inet
  pub wg : WgLib K
  -- crypto_pwhash_str_verify(hash, password, …) == 0
  pub pwhash_verify : Bytes → Bytes → Bool
  -- crypto_pwhash_str(password, …, opslimit, memlimit), and its limits for interactive use.
  pub pwhash_str : Bytes → ℕ → ℕ → Option Bytes
  pub opslimit_interactive : ℕ
  pub memlimit_interactive : ℕ
  -- crypto_scalarmult_base: what it leaves in the key's buffer, and its result.
  pub scalarmult_base : Bytes → Bytes × Rc
  -- sodium_bin2base64, for the original and the URL-safe variant.
  pub to_base64 : Bytes → Bytes
  pub to_base64url : Bytes → Bytes
  -- sodium_base642bin into a buffer of the given size.
  pub from_base64 : ℕ → Bytes → Option Bytes
  -- cJSON_Parse, and cJSON_GetObjectItem on its result.
  pub parse_json : Bytes → Option JsonObject

-- What crypto_pwhash_str makes of a password passes crypto_pwhash_str_verify with that password,
-- and fits crypto_pwhash_STRBYTES, 128, with its NUL.
pub record PwhashLaws {K : Type 0} (ext : External K) : Type 0 where
  pub verified :
      (password hash : Bytes) (ops mem : ℕ)
      → ext.pwhash_str password ops mem ≡ some hash
      → ext.pwhash_verify hash password ≡ true
  pub length_hash :
      (password hash : Bytes) (ops mem : ℕ)
      → ext.pwhash_str password ops mem ≡ some hash
      → length hash ≤ 127
