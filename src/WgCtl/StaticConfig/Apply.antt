-- ===== src/WgCtl/StaticConfig/Apply.antt =====
-- wgctl_load_static_config: what is done with what the file gave, and the ways out.
use wg_auth.Base.{
  ℕ, ◌+◌, Bool, true, ◌&&◌, ◌||◌, List, [], ◌∷◌, Option, none, some, Bytes, codes, strncpy, leb,
  ◌==◌, if◌then◌else◌, Rc, success, failure,
}
use wg_auth.Config.Load.{fgets_all}
use wg_auth.External.{External, AllowedIp, WgPeer, WgDevice}
use wg_auth.Libc.{is_digit}
use wg_auth.WgCtl.StaticConfig.{
  Loading, Loaded, going, bad_key, no_memory, nothing_read, load_conf_lines,
}
use wg_auth.WgCtl.{zero_key}

-- isxdigit, '.', ':' or '/'
abbrev pub is_address_char : ℕ → Bool
is_address_char c =
    is_digit c
    || (leb b'a' c && leb c b'f')
    || (leb b'A' c && leb c b'F')
    || c == b'.'
    || c == b':'
    || c == b'/'

unfoldable pub all_address_chars : Bytes → Bool
all_address_chars [] = true
all_address_chars (c ∷ s) = is_address_char c && all_address_chars s

-- What the function returns; `indeterminate` is `rc` read before it is set.
pub data Returned : Type 0 where
  returned : Rc → Returned
  indeterminate : Returned

-- The kernel's interfaces, the argument vectors that run_cmd starts `ip` with, the result, and the
-- blocks that were allocated and freed.
pub record StaticLoad (K : Type 0) : Type 0 where
  pub kernel : K
  pub commands : List (List Bytes)
  pub result : Returned
  pub allocated : ℕ
  pub freed : ℕ

abbrev pub link_up : Bytes → List Bytes
link_up name = codes "ip" ∷ codes "link" ∷ codes "set" ∷ codes "up" ∷ codes "dev" ∷ name ∷ []

abbrev pub addr_add : Bytes → Bytes → List Bytes
addr_add address name = codes "ip" ∷ codes "addr" ∷ codes "add" ∷ address ∷ codes "dev" ∷ name ∷ []

-- The loops at cleanup and at oom, over the blocks that are freed.
unfoldable pub free_allowed_ips : List AllowedIp → ℕ → ℕ
free_allowed_ips [] n = n
free_allowed_ips (aip ∷ aips) n = free_allowed_ips aips (n + 1)

unfoldable pub free_peers : List WgPeer → ℕ → ℕ
free_peers [] n = n
free_peers (peer ∷ peers) n = free_peers peers (free_allowed_ips peer.allowed_ips n + 1)

abbrev pub device_of : Bytes → Loading → WgDevice
device_of name l = record {
  name = name;
  has_private_key = l.has_private_key;
  has_listen_port = l.has_listen_port;
  public_key = zero_key;
  private_key = l.private_key;
  listen_port = l.listen_port;
  peers = l.peers;
}

module _ {K : Type 0} where
  -- cleanup, and oom, which returns -1.
  abbrev pub cleanup : Loading → K → List (List Bytes) → Returned → StaticLoad K
  cleanup l k commands result = record {
    kernel = k;
    commands = commands;
    result = result;
    allocated = l.allocated;
    freed = free_peers l.peers l.freed;
  }

  -- The `return -1` between wg_set_device and cleanup.
  abbrev pub left_early : Loading → K → StaticLoad K
  left_early l k = record {
    kernel = k;
    commands = [];
    result = returned failure;
    allocated = l.allocated;
    freed = l.freed;
  }

  -- wg_set_device has answered.
  unfoldable pub configured : Bytes → Bytes → Loading → K × Rc → StaticLoad K
  configured name address l (k, failure) = cleanup l k [] (returned failure)
  configured name [] l (k, success) = cleanup l k (link_up name ∷ []) (returned success)
  configured name (c ∷ address) l (k, success) =
      if all_address_chars (c ∷ address)
      then cleanup l k (addr_add (c ∷ address) name ∷ link_up name ∷ []) (returned success)
      else left_early l k

  -- The file has been read.
  unfoldable pub loaded : External K → Bytes → Loaded → K → StaticLoad K
  loaded ext name (bad_key l) k = cleanup l k [] indeterminate
  loaded ext name (no_memory l) k = cleanup l k [] (returned failure)
  loaded ext name (going l) k =
      configured name l.interface_address l
        (ext.wg.wg_set_device (device_of name l) (ext.wg.wg_add_device name k))

  -- `none` is a file that does not open.
  unfoldable pub wgctl_load_static_config :
      External K → (ℕ → Bool) → Bytes → Option Bytes → K → StaticLoad K
  wgctl_load_static_config ext memory ifname none k = left_early nothing_read k
  wgctl_load_static_config ext memory ifname (some file) k =
      loaded ext (strncpy 16 ifname)
        (load_conf_lines ext memory (fgets_all 1023 1023 [] file) nothing_read) k
