-- ===== src/Windows/Conf.antt =====
-- windows/client/src/authwg.cpp: the strings of a login's response, and the file wg-vpn.conf that
-- is written from them.
use wg_auth.Base.{
  ◌||◌, [], ◌∷◌, ◌++◌, Option, none, some, Bytes, String, codes, ◌==◌, if◌then◌else◌,
}
use wg_auth.Client.{Member, string, number, other, Response}

-- The strings of a response that the tunnel is made of; `dns` is empty where there is none.
pub record TunnelConf : Type 0 where
  pub token : Bytes
  pub priv : Bytes
  pub addr : Bytes
  pub srv_pub : Bytes
  pub psk : Bytes
  pub endpoint : Bytes
  pub allowed_ips : Bytes
  pub dns : Bytes

abbrev pub string_item : Option Member → Option Bytes
string_item none = none
string_item (some (string s)) = some s
string_item (some (number v)) = none
string_item (some other) = none

unfoldable pub safe_get_string : Response → String → Option Bytes
safe_get_string obj key = string_item (obj key)

-- The text through its last separator.
unfoldable pub through_separator : Bytes → Option Bytes
through_separator [] = none
through_separator (c ∷ s) = elim (through_separator s) [
  | some front ↦ some (c ∷ front)
  | none ↦ if c == 92 || c == b'/' then some (c ∷ []) else none
]

unfoldable pub exe_dir : Bytes → Bytes
exe_dir exe_path = elim (through_separator exe_path) [ none ↦ exe_path | some dir ↦ dir ]

unfoldable pub absolute_conf_path : Bytes → Bytes
absolute_conf_path exe_path = exe_dir exe_path ++ codes "wg-vpn.conf"

abbrev pub wireguard_exe : Bytes → Bytes
wireguard_exe exe_path = exe_dir exe_path ++ codes "wireguard.exe"

abbrev pub quoted : Bytes → Bytes
quoted path = 34 ∷ (path ++ 34 ∷ [])

-- The lines of wg-vpn.conf.
abbrev pub line : String → Bytes → Bytes
line key value = codes key ++ (value ++ b'\n' ∷ [])

abbrev pub dns_line : Bytes → Bytes
dns_line [] = []
dns_line (c ∷ dns) = line "DNS = " (c ∷ dns)

unfoldable pub conf_text : TunnelConf → Bytes
conf_text t =
    line "[Interface]" []
    ++ (line "PrivateKey = " t.priv
        ++ (line "Address = " t.addr
            ++ (dns_line t.dns
                ++ (line "" []
                    ++ (line "[Peer]" []
                        ++ (line "PublicKey = " t.srv_pub
                            ++ (line "PresharedKey = " t.psk
                                ++ (line "Endpoint = " t.endpoint
                                    ++ (line "AllowedIPs = " t.allowed_ips
                                        ++ line "PersistentKeepalive = 25" [])))))))))

-- `none` for missing fields.
unfoldable pub tunnel_conf : Response → Option TunnelConf
tunnel_conf obj = elim (safe_get_string obj "session_token") [
  | none ↦ none
  | some token ↦ elim (safe_get_string obj "client_private_key") [
    | none ↦ none
    | some priv ↦ elim (safe_get_string obj "client_address") [
      | none ↦ none
      | some addr ↦ elim (safe_get_string obj "server_public_key") [
        | none ↦ none
        | some srv_pub ↦ elim (safe_get_string obj "preshared_key") [
          | none ↦ none
          | some psk ↦ elim (safe_get_string obj "endpoint") [
            | none ↦ none
            | some endpoint ↦ elim (safe_get_string obj "allowed_ips") [
              | none ↦ none
              | some allowed_ips ↦ some (record {
                token = token;
                priv = priv;
                addr = addr;
                srv_pub = srv_pub;
                psk = psk;
                endpoint = endpoint;
                allowed_ips = allowed_ips;
                dns = elim (safe_get_string obj "dns") [ none ↦ [] | some dns ↦ dns ];
              })
            ]
          ]
        ]
      ]
    ]
  ]
]
