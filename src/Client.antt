-- ===== src/Client.antt =====
-- client/src, the command-line client: what it calls and the repository does not implement. The
-- modules below are its three source files.
pub mod Api
pub mod Tunnel
pub mod Main
use wg_auth.Base.{ℕ, Bool, List, Option, Bytes, String, Rc}
use wg_auth.External.{Inet, Family, AllowedIp}
use wg_auth.Libc.{ℤ}

-- An item of a response. The number is `valuedouble` cut to an integer.
pub data Member : Type 0 where
  string : Bytes → Member
  number : ℤ → Member
  other : Member

abbrev pub Response : Type 0
Response = String → Option Member

-- CURLOPT_POSTFIELDS, CURLOPT_POSTFIELDSIZE with 0, or neither.
pub data PostFields : Type 0 where
  fields : Bytes → PostFields
  size_zero : PostFields
  unset : PostFields

-- The options of one curl handle.
pub record HttpRequest : Type 0 where
  pub url : Bytes
  pub headers : List Bytes
  pub post_fields : PostFields
  pub verifies : Bool
  -- CURLOPT_CAINFO
  pub ca_cert : Option Bytes

-- The end of a transfer: the response code, and the parts that CURLOPT_WRITEFUNCTION got, each with
-- whether realloc succeeded.
pub record Transfer : Type 0 where
  pub http_code : ℕ
  pub parts : List (Bool × Bytes)

-- libcurl and cJSON, over the network `N`. `none` is a curl error.
pub record Http (N : Type 0) : Type 0 where
  pub perform : HttpRequest → N → N × Option Transfer
  pub parse_json : Bytes → Option Response
  -- An object of strings, printed; `none` where cJSON_PrintUnformatted has no memory.
  pub print_strings : List (String × Bytes) → Option Bytes

pub data Endpoint : Type 0 where
  endpoint : Family → ℕ → ℕ → Endpoint

-- What getaddrinfo's first result says of the host.
pub data Resolved : Type 0 where
  address : Family → ℕ → Resolved
  other_family : Resolved

-- wg_peer and wg_device, with the fields that the client sets.
pub record ServerPeer : Type 0 where
  pub public_key : Bytes
  pub preshared_key : Option Bytes
  pub endpoint_addr : Endpoint
  pub persistent_keepalive_interval : ℕ
  pub replace_allowedips : Bool
  pub allowed_ips : List AllowedIp

pub record ClientDevice : Type 0 where
  pub name : Bytes
  pub private_key : Bytes
  pub replace_peers : Bool
  pub peer : ServerPeer

-- embeddable-wg-library, the resolver and the shell, over the machine `K`.
pub record Machine (K : Type 0) : Type 0 where
  pub net : Inet
  pub wg_add_device : Bytes → K → K × Rc
  pub wg_del_device : Bytes → K → K
  pub wg_set_device : ClientDevice → K → K × Rc
  pub wg_key_from_base64 : Bytes → Option Bytes
  pub getaddrinfo : Bytes → Option Resolved
  -- system(cmd), and its result.
  pub system : Bytes → K → K × ℕ
