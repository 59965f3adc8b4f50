-- ===== src/Tests/Clients.antt =====
-- The client, at concrete responses and on a machine that logs the commands that it runs.
use wg_auth.Base.{
  failure, success, ℕ, ◌+◌, ◌≤◌, ◌≡◌, ◌≢◌, ◌⊎◌, refl, false, List, [], ◌∷◌, ◌++◌, Option, none,
  some, Bytes, codes, arith, success, length, replicate, All, str_eq,
}
use wg_auth.Api.Login.{handle_login}
use wg_auth.Api.Logout.{handle_logout}
use wg_auth.Api.Renew.Outcome.{Renewed}
use wg_auth.Api.Logout.Laws.{MayLogout}
use wg_auth.Api.Logout.Outcome.{LoggedOut}
use wg_auth.Client.Api.Sequel.{client_logout_agrees}
use wg_auth.Client.Api.{client_api_logout}
use wg_auth.Api.Renew.Laws.{MayRenew}
use wg_auth.Api.Renew.{handle_renew}
use wg_auth.Client.Api.Sequel.{client_renew_agrees}
use wg_auth.Client.Api.Wire.{transfer_of, client_login_agrees}
use wg_auth.Client.Api.{
  Settings, ClientConfig, client_api_init, config_of, client_api_login, do_post, read_response,
  write_parts, write_memory_cb, copy_string_field, client_api_renew, post_token,
}
use wg_auth.Client.Main.Renewal.{Alive, renew_thread-Alive}
use wg_auth.Client.Tunnel.Commands.{Built, client_wg_up_sound}
use wg_auth.Client.Tunnel.{
  split_last, resolve_endpoint, tunnel_of, created, configured, addressed, routed, client_wg_up,
}
use wg_auth.Auth.{auth_generate_token}
use wg_auth.Client.{HttpRequest, Transfer, Machine, address}
use wg_auth.Config.Load.{to_nul}
use wg_auth.Db.{Session}
use wg_auth.External.{inet, WgDevice}
use wg_auth.Libc.{pos}
use wg_auth.Server.{Server, Value, Fields, respond}
use wg_auth.Tests.Servers.{st0, st1, token, exclusive0, client}
use wg_auth.Tests.Wire.{
  http, http-WireLaws, print_fields, print_text, print_value, read_all, read_byte, lookup, reading,
}
use wg_auth.Tests.World.{net, net-laws, ext, cfg, calls_at}

abbrev settings : Settings
settings = client_api_init (codes "https://vpn") [] false

-- Every request is answered with this object.
abbrev granted : Fields
granted =
    ("session_token", Value.string (codes "tok"))
    ∷ ("client_private_key", Value.string (codes "priv"))
    ∷ ("server_public_key", Value.string (codes "pub"))
    ∷ ("client_address", Value.string (codes "10.8.1.2/32"))
    ∷ ("endpoint", Value.string (codes "vpn:51820"))
    ∷ ("allowed_ips", Value.string (codes "0.0.0.0/0, 10.0.0.0/8"))
    ∷ ("expires_at", Value.number 5000)
    ∷ []

abbrev server : HttpRequest → ℕ → ℕ × Option Transfer
server req n = (n + 1, transfer_of print_fields (respond 200 granted))

abbrev config : ClientConfig
config = config_of (lookup (read_all (reading 0 [] []) (to_nul (print_fields granted))))

answered :
    (client_api_login (http server) settings (codes "ann") (codes "secret") 0).1 ≡ some config
unfolding client_api_login do_post read_response write_parts write_memory_cb config_of
    copy_string_field to_nul print_fields print_text print_value read_all read_byte lookup
    client_api_init str_eq
answered = refl

-- A machine on which everything works, and which keeps the commands.
abbrev machine : Machine (List Bytes)
machine = record {
  net = net;
  wg_add_device = λ name k. (k, success);
  wg_del_device = λ name k. k;
  wg_set_device = λ dev k. (k, success);
  wg_key_from_base64 = some;
  getaddrinfo = λ host. some (address inet 7);
  system = λ cmd k. (cmd ∷ k, 0);
}

-- No command is empty.
abbrev Commands : List Bytes → Type 0
Commands = All (λ cmd. cmd ≢ [])

up : (client_wg_up machine (codes "wg-vpn") config []).1 ≡ success
unfolding client_wg_up created configured addressed routed tunnel_of resolve_endpoint split_last
    config_of copy_string_field to_nul print_fields print_text print_value read_all read_byte lookup
    str_eq
up = refl

client_wg_up_sound_example :
    Built machine (codes "wg-vpn") config [] (client_wg_up machine (codes "wg-vpn") config [])
client_wg_up_sound_example = client_wg_up_sound machine (codes "wg-vpn") config [] up

renewed :
    (n : ℕ) → (client_api_renew (http server) settings (codes "tok") (pos 0) n).1 ≡ some (pos 5000)
unfolding client_api_renew post_token do_post read_response write_parts write_memory_cb to_nul
    print_fields print_text print_value read_all read_byte lookup str_eq
renewed n = refl

renew_thread-Alive_example :
    Alive
      (http server)
      machine
      settings
      (codes "tok")
      (60 ∷ 120 ∷ [])
      (0, record config { expires_at = pos 700 })
renew_thread-Alive_example =
    renew_thread-Alive (http server) machine settings (codes "tok") 60 1000 (60 ∷ 120 ∷ []) 0 0
      (record config { expires_at = pos 700 }) (omega arith) (omega arith)
      ((λ due. (5000, renewed 0, omega arith)), ((λ due. (5000, renewed _, omega arith)), tt))
      (omega arith) (omega arith, (omega arith, tt))

token_given : auth_generate_token ext (replicate 32 7) ≢ []
unfolding auth_generate_token
token_given = λ e. cc

token_short : length (auth_generate_token ext (replicate 32 7)) ≤ 63
unfolding auth_generate_token
token_short = omega arith

-- The server itself, whose state is the network.
abbrev vpn : HttpRequest → Server (List WgDevice) → Server (List WgDevice) × Option Transfer
vpn req st =
    let (st', reply) = handle_login ext cfg (calls_at 100 7) client (codes "secret") st in
    (st', transfer_of print_fields reply)

client_login_agrees_example :
    let sessions' =
      (handle_login ext cfg (calls_at 100 7) client (codes "secret") st0).0.db.sessions in
    let answer = (client_api_login (http vpn) settings (codes "ann") (codes "secret") st0).1 in
    ((answer ≡ none) × (sessions' ≡ st0.db.sessions))
    ⊎ ((config : ClientConfig) × (row : Session) × (answer ≡ some config)
        × (sessions' ≡ st0.db.sessions ++ row ∷ [])
        × (config.session_token ≡ row.session_token)
        × (config.client_address ≡ row.allowed_ip)
        × (config.expires_at ≡ pos row.expires_at))
client_login_agrees_example =
    client_login_agrees ext net-laws cfg (calls_at 100 7) (http vpn) print_fields
      (http-WireLaws vpn) client (codes "secret") st0 settings (codes "ann") (codes "secret") st0
      exclusive0.ready refl token_given token_short refl

-- Ann's session is renewed at 300, and ended at 200.
abbrev renewing : HttpRequest → Server (List WgDevice) → Server (List WgDevice) × Option Transfer
renewing req st =
    let (st', reply) = handle_renew ext cfg (calls_at 300 0) token st in
    (st', transfer_of print_fields reply)

client_renew_agrees_example :
    let st' = (handle_renew ext cfg (calls_at 300 0) token st1).0 in
    let answer = (client_api_renew (http renewing) settings token (pos 0) st1).1 in
    ((answer ≡ none) × (st' ≡ st1))
    ⊎ ((sess : Session) × (may : MayRenew ext cfg (calls_at 300 0) token st1.db sess) × (answer
          ≡ some (pos 43500))
        × Renewed ext cfg (calls_at 300 0) may.token sess may.row.row 43500 st1 st')
client_renew_agrees_example =
    client_renew_agrees ext cfg (calls_at 300 0) (http renewing) print_fields
      (http-WireLaws renewing) settings token token st1 st1 refl refl

abbrev ending : HttpRequest → Server (List WgDevice) → Server (List WgDevice) × Option Transfer
ending req st =
    let (st', reply) = handle_logout ext cfg (calls_at 200 0) token st in
    (st', transfer_of print_fields reply)

client_logout_agrees_example :
    let st' = (handle_logout ext cfg (calls_at 200 0) token st1).0 in
    let answer = (client_api_logout (http ending) settings token st1).1 in
    ((answer ≡ failure) × (st' ≡ st1))
    ⊎ ((sess : Session) × (key : Bytes) × (may : MayLogout ext cfg
          (calls_at 200 0)
          token
          st1.db
          sess
          key)
        × (answer ≡ success)
        × LoggedOut ext cfg (calls_at 200 0) may.token sess may.row.row key st1 st')
client_logout_agrees_example =
    client_logout_agrees ext cfg (calls_at 200 0) (http ending) print_fields (http-WireLaws ending)
      settings token token st1 st1 refl refl
