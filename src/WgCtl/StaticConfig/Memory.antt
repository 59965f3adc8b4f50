-- ===== src/WgCtl/StaticConfig/Memory.antt =====
-- The blocks of the peers and of their addresses.
use wg_auth.Base.{
  ℕ, ◌+◌, ◌<◌, ◌≡◌, ◌⊎◌, refl, inl, inr, Bool, true, List, [], ◌∷◌, ◌++◌, Option, none, some, Bytes,
  codes, take, after, length, length-append, ◌==◌, ◌||◌, arith, Bool-cases, Option-cases,
}
use wg_auth.Config.Load.{to_nul, trim}
use wg_auth.External.{External, Inet, AllowedIp, WgPeer}
use wg_auth.WgCtl.StaticConfig.Apply.{free_allowed_ips, free_peers}
use wg_auth.WgCtl.StaticConfig.{
  ParseState, state_none, state_interface, state_peer, Loading, Loaded, going, bad_key, no_memory,
  go_on, on_last, change_peer, same_word, parse_token, parse_tokens, load_section, with_key,
  decode_key, load_interface, load_peer, load_value, load_conf_line, load_conf_lines, conf_value,
  commas, to_line_end,
}
use wg_auth.WgCtl.{parse_allowed_ip}

-- One block for a peer and one for each of its addresses.
unfoldable pub blocks : List WgPeer → ℕ
blocks [] = 0
blocks (peer ∷ peers) = length peer.allowed_ips + blocks peers + 1

abbrev pub loading_of : Loaded → Loading
loading_of (going l) = l
loading_of (bad_key l) = l
loading_of (no_memory l) = l

-- What is allocated and not freed is the chain of peers.
abbrev pub Balanced : Loading → Type 0
Balanced l = l.allocated ≡ l.freed + blocks l.peers

-- The same, where there is a cur_peer.
abbrev Busy : Loading → Type 0
Busy l = Balanced l × (0 < blocks l.peers)

kept_going :
    (P : Loading → Type 0) (r : Loaded) (next : Loading → Loaded)
    → P (loading_of r)
    → ((l : Loading) → P l → P (loading_of (next l)))
    → P (loading_of (go_on r next))
unfolding go_on
kept_going P (going l) next here there = there l here
kept_going P (bad_key l) next here there = here
kept_going P (no_memory l) next here there = here

List-cases : (s : Bytes) → (s ≡ []) ⊎ ((c : ℕ) × (t : Bytes) × (s ≡ c ∷ t))
List-cases [] = inl refl
List-cases (c ∷ t) = inr (c, t, refl)

blocks-append : (ps qs : List WgPeer) → blocks (ps ++ qs) ≡ blocks ps + blocks qs
unfolding blocks
blocks-append [] qs = omega arith
blocks-append (p ∷ ps) qs = omega (arith, blocks-append ps qs)

blocks-on_last :
    (f : WgPeer → WgPeer) (d : ℕ)
    → ((p : WgPeer) → length (f p).allowed_ips ≡ length p.allowed_ips + d)
    → (ps : List WgPeer) → 0 < blocks ps
    → blocks (on_last f ps) ≡ blocks ps + d
unfolding blocks on_last
blocks-on_last f d more [] some_peer = absurd (omega (arith, some_peer))
blocks-on_last f d more (p ∷ []) some_peer = omega (arith, more p)
blocks-on_last f d more (p ∷ q ∷ ps) some_peer =
    omega (arith, blocks-on_last f d more (q ∷ ps) (omega arith))

free_allowed_ips-length :
    (aips : List AllowedIp) (n : ℕ) → free_allowed_ips aips n ≡ n + length aips
unfolding free_allowed_ips
free_allowed_ips-length [] n = omega arith
free_allowed_ips-length (aip ∷ aips) n = omega (arith, free_allowed_ips-length aips (n + 1))

pub free_peers-blocks : (ps : List WgPeer) (n : ℕ) → free_peers ps n ≡ n + blocks ps
unfolding free_peers blocks
free_peers-blocks [] n = omega arith
free_peers-blocks (p ∷ ps) n = omega (
  arith,
  free_peers-blocks ps (free_allowed_ips p.allowed_ips n + 1),
  free_allowed_ips-length p.allowed_ips n,
)

module _ (memory : ℕ → Bool) where
  parse_token-Busy :
      (net : Inet) (text : Bytes) (l : Loading)
      → Busy l
      → Busy (loading_of (parse_token memory net text l))
  unfolding parse_token
  parse_token-Busy net text l (even, some_peer) = elim (Bool-cases (memory l.requests)) [
    | inr full ↦ rw (parse_token, full) (even, some_peer)
    | inl there ↦ elim (Option-cases (parse_allowed_ip net text)) [
      | inl bad ↦ rw (parse_token, there, bad) (omega (arith, even), some_peer)
      | inr (aip, good) ↦
          let grown =
            blocks-on_last (λ p. record p { allowed_ips = p.allowed_ips ++ aip ∷ [] }) 1
              (λ p. length-append p.allowed_ips (aip ∷ [])) l.peers some_peer in
          rw (parse_token, there, good) (omega (arith, even, grown), omega (arith, grown))
    ]
  ]

  parse_tokens-Busy :
      (net : Inet) (tokens : List Bytes) (l : Loading)
      → Busy l
      → Busy (loading_of (parse_tokens memory net tokens l))
  unfolding parse_tokens
  parse_tokens-Busy net [] l b = b
  parse_tokens-Busy net (token ∷ tokens) l b = elim (List-cases (trim token)) [
    | inl blank ↦ rw (parse_tokens, blank) (parse_tokens-Busy net tokens l b)
    | inr (c, text, found) ↦
        rw (parse_tokens, found)
          (kept_going Busy (parse_token memory net (c ∷ text) l) (parse_tokens memory net tokens)
            (parse_token-Busy net (c ∷ text) l b) (parse_tokens-Busy net tokens))
  ]

  load_section-Balanced :
      (p : Bytes) (l : Loading) → Balanced l → Balanced (loading_of (load_section memory p l))
  unfolding load_section blocks
  load_section-Balanced p l even = elim (Bool-cases (same_word (take 11 p) (codes "[interface]"))) [
    | inl own ↦ rw (load_section, own) even
    | inr other ↦ elim (Bool-cases (same_word (take 6 p) (codes "[peer]"))) [
      | inr unknown ↦ rw (load_section, other, unknown) even
      | inl peer ↦ elim (Bool-cases (memory l.requests)) [
        | inr full ↦ rw (load_section, other, peer, full) even
        | inl there ↦
            rw (load_section, other, peer, there, blocks-append l.peers _) (omega (arith, even))
      ]
    ]
  ]

-- A change of cur_peer that leaves its addresses alone.
same_blocks :
    (f : WgPeer → WgPeer) (l : Loading)
    → ((p : WgPeer) → (f p).allowed_ips ≡ p.allowed_ips)
    → Balanced l
    → 0 < blocks l.peers
    → Balanced (change_peer f l)
same_blocks f l kept even some_peer =
    omega (arith, even, blocks-on_last f 0 (λ p. rw (kept p) (omega arith)) l.peers some_peer)

with_key-Balanced :
    (key : Option Bytes) (store : Bytes → Loading) (l : Loading)
    → Balanced l
    → ((k : Bytes) → Balanced (store k))
    → Balanced (loading_of (with_key key store l))
unfolding with_key
with_key-Balanced none store l even stored = even
with_key-Balanced (some k) store l even stored = stored k

module _ {K : Type 0} (ext : External K) where
  load_interface-Balanced :
      (key val : Bytes) (l : Loading)
      → Balanced l
      → Balanced (loading_of (load_interface ext key val l))
  unfolding load_interface
  load_interface-Balanced key val l even = elim (Bool-cases (same_word key (codes "privatekey"))) [
    | inl found ↦
        rw (load_interface, found) (with_key-Balanced (decode_key ext val) _ l even (λ k. even))
    | inr other ↦ elim (Bool-cases (same_word key (codes "listenport"))) [
      | inl found ↦ rw (load_interface, other, found) even
      | inr neither ↦ elim (Bool-cases (same_word key (codes "address"))) [
        | inl found ↦ rw (load_interface, other, neither, found) even
        | inr none_known ↦ rw (load_interface, other, neither, none_known) even
      ]
    ]
  ]

  module _ (memory : ℕ → Bool) where
    load_peer-Balanced :
        (key val : Bytes) (l : Loading)
        → Busy l
        → Balanced (loading_of (load_peer ext memory key val l))
    unfolding load_peer
    load_peer-Balanced key val l (even, some_peer) =
        elim (Bool-cases (same_word key (codes "publickey"))) [
          | inl found ↦
              rw (load_peer, found)
                (with_key-Balanced (decode_key ext val) _ l even (λ k.
                  same_blocks (λ p. record p { public_key = k }) l (λ p. refl) even some_peer))
          | inr other ↦ elim (Bool-cases (same_word key (codes "presharedkey"))) [
            | inl found ↦
                rw (load_peer, other, found)
                  (with_key-Balanced (decode_key ext val) _ l even (λ k.
                    same_blocks (λ p. record p { has_preshared_key = true; preshared_key = k }) l
                      (λ p. refl) even some_peer))
            | inr neither ↦ elim (Bool-cases (same_word key (codes "allowedips"))) [
              | inl found ↦
                  rw (load_peer, other, neither, found)
                    ((parse_tokens-Busy memory ext.net (commas val) l (even, some_peer)).0)
              | inr none_known ↦ rw (load_peer, other, neither, none_known) even
            ]
          ]
        ]

    load_value-Balanced :
        (state : ParseState) (peers : List WgPeer) (key val : Bytes) (l : Loading)
        → l.peers ≡ peers
        → Balanced l
        → Balanced (loading_of (load_value ext memory state peers key val l))
    unfolding load_value blocks
    load_value-Balanced state_none peers key val l e even = even
    load_value-Balanced state_interface peers key val l e even =
        load_interface-Balanced key val l even
    load_value-Balanced state_peer [] key val l e even = even
    load_value-Balanced state_peer (peer ∷ peers) key val l e even =
        load_peer-Balanced key val l (even, rw e (omega arith))

    load_conf_line-Balanced :
        (p : Bytes) (l : Loading)
        → Balanced l
        → Balanced (loading_of (load_conf_line ext memory p l))
    unfolding load_conf_line
    load_conf_line-Balanced [] l even = even
    load_conf_line-Balanced (c ∷ p) l even = elim (Bool-cases (c == b'#' || c == b';')) [
      | inl comment ↦ rw (load_conf_line, comment) even
      | inr text ↦ elim (Bool-cases (c == b'[')) [
        | inl header ↦
            rw (load_conf_line, text, header) (load_section-Balanced memory (c ∷ p) l even)
        | inr pair ↦ elim (Option-cases (after b'=' (c ∷ p))) [
          | inl bare ↦ rw (load_conf_line, text, pair, bare) even
          | inr (rest, split) ↦
              rw (load_conf_line, text, pair, split)
                (load_value-Balanced l.state l.peers _ (conf_value rest) l refl even)
        ]
      ]
    ]

    pub load_conf_lines-Balanced :
        (lines : List Bytes) (l : Loading)
        → Balanced l
        → Balanced (loading_of (load_conf_lines ext memory lines l))
    unfolding load_conf_lines
    load_conf_lines-Balanced [] l even = even
    load_conf_lines-Balanced (line ∷ lines) l even =
        kept_going Balanced (load_conf_line ext memory (trim (to_line_end (to_nul line))) l)
          (load_conf_lines ext memory lines)
          (load_conf_line-Balanced (trim (to_line_end (to_nul line))) l even)
          (load_conf_lines-Balanced lines)
