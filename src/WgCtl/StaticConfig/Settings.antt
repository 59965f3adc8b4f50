-- ===== src/WgCtl/StaticConfig/Settings.antt =====
-- The settings that the lines of the interface's file are read as.
use wg_auth.Base.{
  ℕ, ◌≡◌, refl, ◌∙◌, Bool, true, List, [], ◌∷◌, ◌++◌, some, Bytes, codes, before, after, str_eq,
  length, strncpy,
}
use wg_auth.Auth.{wg_key_len}
use wg_auth.Config.Load.{to_nul, trim, trim_end}
use wg_auth.External.{External, WgPeer}
use wg_auth.Libc.{is_space, skip_space, atoi}
use wg_auth.WgCtl.StaticConfig.Values.{IsText, IsValue, text-IsValue}
use wg_auth.WgCtl.StaticConfig.{
  Loading, going, nothing_read, state_interface, state_peer, block_given, to_line_end, lower,
  to_u16, decode_key, with_key, on_last, load_interface, load_peer, load_section, load_value,
  load_conf_line, load_conf_lines, go_on,
}
use wg_auth.WgCtl.{peer_with, zero_key}

-- A line with a key and its value, as fgets gives it.
abbrev pub setting_line : Bytes → Bytes → Bytes
setting_line key value = key ++ codes " = " ++ value ++ b'\n' ∷ []

module _ {K : Type 0} (ext : External K) (memory : ℕ → Bool) where
  -- One line, and what it is read as.
  abbrev Reads : Bytes → Loading → Loading → Type 0
  Reads text l l' = load_conf_line ext memory (trim (to_line_end (to_nul text))) l ≡ going l'

  read_first :
      (text : Bytes) (lines : List Bytes) (l l' : Loading)
      → Reads text l l'
      → load_conf_lines ext memory (text ∷ lines) l ≡ load_conf_lines ext memory lines l'
  unfolding load_conf_lines go_on
  read_first text lines l l' e = rw (load_conf_lines, e) refl

  listen_port_read :
      (text : Bytes) (l : Loading)
      → IsValue text
      → l.state ≡ state_interface
      → Reads
          (setting_line (codes "ListenPort") text)
          l
          (record l { has_listen_port = true; listen_port = to_u16 (atoi text) })
  unfolding load_conf_line load_value to_nul to_line_end trim trim_end skip_space is_space after
      before load_interface str_eq lower
  listen_port_read text l ok state =
      rw (ok.line_end, ok.shape, state, load_conf_line, ok.value, load_value, load_interface) refl

  address_read :
      (text : Bytes) (l : Loading)
      → IsValue text
      → l.state ≡ state_interface
      → Reads
          (setting_line (codes "Address") text)
          l
          (record l { interface_address = strncpy 64 text })
  unfolding load_conf_line load_value to_nul to_line_end trim trim_end skip_space is_space after
      before load_interface str_eq lower
  address_read text l ok state =
      rw (ok.line_end, ok.shape, state, load_conf_line, ok.value, load_value, load_interface) refl

  -- The base64 of 32 bytes.
  abbrev pub KeyText : Bytes → Bytes → Type 0
  KeyText text key = (ext.from_base64 wg_key_len text ≡ some key) × (length key ≡ wg_key_len)

  decoded : (text key : Bytes) → KeyText text key → decode_key ext text ≡ some key
  unfolding decode_key
  decoded text key (good, size) = rw (good, size, decode_key) refl

  private_key_read :
      (text key : Bytes) (l : Loading)
      → IsValue text
      → KeyText text key
      → l.state ≡ state_interface
      → Reads
          (setting_line (codes "PrivateKey") text)
          l
          (record l { has_private_key = true; private_key = key })
  unfolding load_conf_line load_value to_nul to_line_end trim trim_end skip_space is_space after
      before load_interface str_eq lower with_key
  private_key_read text key l ok good state =
      rw
        (
          ok.line_end,
          ok.shape,
          state,
          load_conf_line,
          ok.value,
          load_value,
          load_interface,
          decoded text key good,
          with_key,
        )
        refl

  public_key_read :
      (text key : Bytes) (peer : WgPeer) (l : Loading)
      → IsValue text
      → KeyText text key
      → l.state ≡ state_peer
      → l.peers ≡ peer ∷ []
      → Reads
          (setting_line (codes "PublicKey") text)
          l
          (record l { peers = record peer { public_key = key } ∷ [] })
  unfolding load_conf_line load_value to_nul to_line_end trim trim_end skip_space is_space after
      before load_peer str_eq lower with_key on_last
  public_key_read text key peer l ok good state one =
      rw
        (
          ok.line_end,
          ok.shape,
          state,
          one,
          load_conf_line,
          ok.value,
          load_value,
          load_peer,
          decoded text key good,
          with_key,
        )
        refl

  interface_read :
      (l : Loading) → Reads (codes "[Interface]\n") l (record l { state = state_interface })
  unfolding load_conf_line to_nul to_line_end trim trim_end skip_space is_space load_section str_eq
      lower
  interface_read l = refl

  peer_read :
      (l : Loading)
      → memory l.requests ≡ true
      → Reads (codes "[Peer]\n") l (record (block_given l) {
        state = state_peer;
        peers = l.peers ++ record (peer_with zero_key) { replace_allowedips = true } ∷ [];
      })
  unfolding load_conf_line to_nul to_line_end trim trim_end skip_space is_space load_section str_eq
      lower
  peer_read l h = rw (h, load_section) refl

  -- A file with the section of the interface, which has its private key, its port and its address,
  -- and that of one peer, which has its public key: where the keys are the base64 of 32 bytes, each
  -- value is a text with no white space and no ';', and calloc gives the block for the peer, the
  -- lines are read as just these settings.
  pub settings_read :
      (private_text key port address public_text peer_key : Bytes)
      → IsText private_text
      → KeyText private_text key
      → IsText port
      → IsText address
      → IsText public_text
      → KeyText public_text peer_key
      → memory 0 ≡ true
      → load_conf_lines ext memory
          (codes "[Interface]\n"
            ∷ setting_line (codes "PrivateKey") private_text
            ∷ setting_line (codes "ListenPort") port
            ∷ setting_line (codes "Address") address
            ∷ codes "[Peer]\n"
            ∷ setting_line (codes "PublicKey") public_text
            ∷ [])
          nothing_read
        ≡ going (record {
          state = state_peer;
          has_private_key = true;
          private_key = key;
          has_listen_port = true;
          listen_port = to_u16 (atoi port);
          peers = record (peer_with peer_key) { replace_allowedips = true } ∷ [];
          interface_address = strncpy 64 address;
          requests = 1;
          allocated = 1;
          freed = 0;
        })
  unfolding load_conf_lines
  settings_read private_text key port address public_text peer_key p1 k1 p2 p3 p4 k2 block =
      let l1 = record nothing_read { state = state_interface } in
      let l2 = record l1 { has_private_key = true; private_key = key } in
      let l3 = record l2 { has_listen_port = true; listen_port = to_u16 (atoi port) } in
      let l4 = record l3 { interface_address = strncpy 64 address } in
      let peer = record (peer_with zero_key) { replace_allowedips = true } in
      let l5 = record (block_given l4) { state = state_peer; peers = peer ∷ [] } in
      let lines5 = setting_line (codes "PublicKey") public_text ∷ [] in
      let lines4 = codes "[Peer]\n" ∷ lines5 in
      let lines3 = setting_line (codes "Address") address ∷ lines4 in
      let lines2 = setting_line (codes "ListenPort") port ∷ lines3 in
      let lines1 = setting_line (codes "PrivateKey") private_text ∷ lines2 in
      read_first (codes "[Interface]\n") lines1 nothing_read l1 (interface_read nothing_read)
      ∙ read_first (setting_line (codes "PrivateKey") private_text) lines2 l1 l2
          (private_key_read private_text key l1 (text-IsValue private_text p1) k1 refl)
      ∙ read_first (setting_line (codes "ListenPort") port) lines3 l2 l3
          (listen_port_read port l2 (text-IsValue port p2) refl)
      ∙ read_first (setting_line (codes "Address") address) lines4 l3 l4
          (address_read address l3 (text-IsValue address p3) refl)
      ∙ read_first (codes "[Peer]\n") lines5 l4 l5 (peer_read l4 block)
      ∙ read_first (setting_line (codes "PublicKey") public_text) [] l5
          (record l5 { peers = record peer { public_key = peer_key } ∷ [] })
          (public_key_read public_text peer_key peer l5 (text-IsValue public_text p4) k2 refl refl)
