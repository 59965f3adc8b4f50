-- ===== src/WgCtl/StaticConfig.antt =====
-- wgctl_load_static_config: the parser of the interface's file, with the blocks that it allocates
-- for the peers and their addresses.
pub mod Apply
pub mod Commands
pub mod Memory
pub mod Outcome
pub mod Settings
pub mod Values
use wg_auth.Base.{
  ℕ, ◌+◌, ◌-◌, ◌%◌, ◌^◌, Bool, true, false, ◌&&◌, ◌||◌, not, List, [], ◌∷◌, ◌++◌, Option, none,
  some, Bytes, codes, map, str_eq, strncpy, before, after, take, length, leb, ◌==◌, if◌then◌else◌,
  Rc, success, failure, replicate,
}
use wg_auth.Auth.{wg_key_len}
use wg_auth.Config.Load.{fgets_all, to_nul, trim}
use wg_auth.External.{Inet, External, AllowedIp, WgPeer, WgDevice}
use wg_auth.Libc.{ℤ, pos, negsuc, atoi, is_digit}
use wg_auth.WgCtl.{parse_allowed_ip, zero_key, peer_with}

-- enum parse_state
pub data ParseState : Type 0 where
  state_none state_interface state_peer : ParseState

-- What has been read: the fields of `dev`, the chain of peers, whose last is cur_peer, and the
-- interface's address. Behind them, how often calloc was called, and how many blocks it has given
-- and free has taken.
pub record Loading : Type 0 where
  pub state : ParseState
  pub has_private_key : Bool
  pub private_key : Bytes
  pub has_listen_port : Bool
  pub listen_port : ℕ
  pub peers : List WgPeer
  pub interface_address : Bytes
  pub requests : ℕ
  pub allocated : ℕ
  pub freed : ℕ

abbrev pub nothing_read : Loading
nothing_read = record {
  state = state_none;
  has_private_key = false;
  private_key = zero_key;
  has_listen_port = false;
  listen_port = 0;
  peers = [];
  interface_address = [];
  requests = 0;
  allocated = 0;
  freed = 0;
}

-- How the loop over the lines goes on, or is left: `goto cleanup` at a bad key, and `goto oom`.
pub data Loaded : Type 0 where
  going bad_key no_memory : Loading → Loaded

unfoldable pub go_on : Loaded → (Loading → Loaded) → Loaded
go_on (going l) next = next l
go_on (bad_key l) next = bad_key l
go_on (no_memory l) next = no_memory l

-- A call of calloc that fails, one that gives a block, and a call of free.
abbrev pub block_refused : Loading → Loading
block_refused l = record l { requests = l.requests + 1 }

abbrev pub block_given : Loading → Loading
block_given l = record l { requests = l.requests + 1; allocated = l.allocated + 1 }

abbrev pub block_released : Loading → Loading
block_released l = record l { freed = l.freed + 1 }

-- tolower, in the C locale
unfoldable pub lower : Bytes → Bytes
lower [] = []
lower (c ∷ s) = (if leb b'A' c && leb c b'Z' then c + 32 else c) ∷ lower s

-- strcasecmp(a, b) == 0, for a `b` in lower case
abbrev pub same_word : Bytes → Bytes → Bool
same_word a b = str_eq (lower a) b

-- line[strcspn(line, "\r\n")] = '\0'
unfoldable pub to_line_end : Bytes → Bytes
to_line_end [] = []
to_line_end (c ∷ s) = if c == b'\r' || c == b'\n' then [] else c ∷ to_line_end s

-- The conversion of an `int` to `uint16_t`.
abbrev pub to_u16 : ℤ → ℕ
to_u16 (pos n) = n % 2 ^ 16
to_u16 (negsuc n) = 2 ^ 16 - 1 - n % 2 ^ 16

-- The texts between the commas. strtok_r drops the empty ones, as the loop behind it does.
unfoldable pub commas : Bytes → List Bytes
commas [] = [] ∷ []
commas (c ∷ s) = elim (commas s) [
  | [] ↦ (c ∷ []) ∷ []
  | token ∷ tokens ↦ if c == b',' then [] ∷ token ∷ tokens else (c ∷ token) ∷ tokens
]

-- A change of cur_peer.
unfoldable pub on_last : (WgPeer → WgPeer) → List WgPeer → List WgPeer
on_last f [] = []
on_last f (peer ∷ []) = f peer ∷ []
on_last f (peer ∷ next ∷ peers) = peer ∷ on_last f (next ∷ peers)

abbrev pub change_peer : (WgPeer → WgPeer) → Loading → Loading
change_peer f l = record l { peers = on_last f l.peers }

-- The value behind the '='.
unfoldable pub conf_value : Bytes → Bytes
conf_value text = trim (before b';' (trim text))

-- The `memory` says which calls of calloc succeed.
module _ (memory : ℕ → Bool) where
  -- One of the AllowedIPs, not blank. A text that does not parse gives its block back.
  unfoldable pub parse_token : Inet → Bytes → Loading → Loaded
  parse_token net text l =
      if not (memory l.requests)
      then no_memory (block_refused l)
      else elim (parse_allowed_ip net text) [
        | none ↦ going (block_released (block_given l))
        | some aip ↦ going (
            change_peer (λ p. record p { allowed_ips = p.allowed_ips ++ aip ∷ [] }) (block_given l))
      ]

  unfoldable pub parse_tokens : Inet → List Bytes → Loading → Loaded
  parse_tokens net [] l = going l
  parse_tokens net (token ∷ tokens) l = elim (trim token) [
    | [] ↦ parse_tokens net tokens l
    | c ∷ text ↦ go_on (parse_token net (c ∷ text) l) (parse_tokens net tokens)
  ]

  -- A section header. An unknown one leaves the state as it is.
  unfoldable pub load_section : Bytes → Loading → Loaded
  load_section p l =
      if same_word (take 11 p) (codes "[interface]")
      then going (record l { state = state_interface })
      else if same_word (take 6 p) (codes "[peer]")
      then (if memory l.requests
          then going (record (block_given l) {
            state = state_peer;
            peers = l.peers ++ record (peer_with zero_key) { replace_allowedips = true } ∷ [];
          })
          else no_memory (record (block_refused l) { state = state_peer }))
      else going l

unfoldable pub with_key : Option Bytes → (Bytes → Loading) → Loading → Loaded
with_key none store l = bad_key l
with_key (some k) store l = going (store k)

module _ {K : Type 0} (ext : External K) where
  -- 32 bytes in base64.
  unfoldable pub decode_key : Bytes → Option Bytes
  decode_key val = elim (ext.from_base64 wg_key_len val) [
    | none ↦ none
    | some key ↦ if length key == wg_key_len then some key else none
  ]

  unfoldable pub load_interface : Bytes → Bytes → Loading → Loaded
  load_interface key val l =
      if same_word key (codes "privatekey")
      then with_key (decode_key val) (λ k. record l { has_private_key = true; private_key = k }) l
      else if same_word key (codes "listenport")
      then going (record l { has_listen_port = true; listen_port = to_u16 (atoi val) })
      else if same_word key (codes "address")
      then going (record l { interface_address = strncpy 64 val })
      else going l

  module _ (memory : ℕ → Bool) where
    unfoldable pub load_peer : Bytes → Bytes → Loading → Loaded
    load_peer key val l =
        if same_word key (codes "publickey")
        then with_key (decode_key val) (λ k. change_peer (λ p. record p { public_key = k }) l) l
        else if same_word key (codes "presharedkey")
        then with_key (decode_key val)
            (λ k. change_peer (λ p. record p { has_preshared_key = true; preshared_key = k }) l) l
        else if same_word key (codes "allowedips")
        then parse_tokens memory ext.net (commas val) l
        else going l

    -- Without a cur_peer, nothing is read.
    unfoldable pub load_value : ParseState → List WgPeer → Bytes → Bytes → Loading → Loaded
    load_value state_none peers key val l = going l
    load_value state_interface peers key val l = load_interface key val l
    load_value state_peer [] key val l = going l
    load_value state_peer (peer ∷ peers) key val l = load_peer key val l

    -- One line, trimmed.
    unfoldable pub load_conf_line : Bytes → Loading → Loaded
    load_conf_line [] l = going l
    load_conf_line (c ∷ p) l =
        if c == b'#' || c == b';'
        then going l
        else if c == b'['
        then load_section memory (c ∷ p) l
        else elim (after b'=' (c ∷ p)) [
          | none ↦ going l
          | some rest ↦ load_value l.state l.peers (trim (before b'=' (c ∷ p))) (conf_value rest) l
        ]

    unfoldable pub load_conf_lines : List Bytes → Loading → Loaded
    load_conf_lines [] l = going l
    load_conf_lines (line ∷ lines) l =
        go_on (load_conf_line (trim (to_line_end (to_nul line))) l) (load_conf_lines lines)
