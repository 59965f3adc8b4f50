-- ===== src/Client/Main.antt =====
-- client/src/main.c: the commands of the client, the file that holds its token, and the thread that
-- renews its session.
pub mod Token
pub mod Renewal
use wg_auth.Base.{
  ℕ, ◌+◌, ◌-◌, Bool, true, false, not, List, [], ◌∷◌, Option, none, some, Bytes, codes, str_eq,
  strncpy, ltb, if◌then◌else◌, Rc, success, failure,
}
use wg_auth.Client.Api.{
  Settings, ClientConfig, ClientStatus, client_api_init, client_api_login, client_api_logout,
  client_api_renew, client_api_status,
}
use wg_auth.Client.Tunnel.{client_wg_up, client_wg_down}
use wg_auth.Client.{Http, Machine}
use wg_auth.Config.Load.{fgets_all, to_nul}
use wg_auth.Libc.{ℤ, pos, negsuc}
use wg_auth.WgCtl.StaticConfig.{to_line_end}

abbrev pub ifname : Bytes
ifname = codes "wg-vpn"

-- What a command works on: the network, the machine, and the contents of TOKEN_FILE.
pub record Client (N K : Type 0) : Type 0 where
  pub network : N
  pub machine : K
  pub token_file : Option Bytes

-- fopen fails where `writable` is false.
unfoldable pub save_token : Bool → Bytes → Option Bytes → Option Bytes
save_token writable token file = if writable then some token else file

-- The first line that fgets reads into a buffer of `size` bytes.
abbrev pub first_line : List Bytes → Bytes
first_line [] = []
first_line (line ∷ lines) = to_line_end (to_nul line)

unfoldable pub load_token : ℕ → Option Bytes → Bytes
load_token size none = []
load_token size (some file) = first_line (fgets_all (size - 1) (size - 1) [] file)

-- expires_at - now < 900
unfoldable pub is_due : ℤ → ℕ → Bool
is_due (pos expires_at) now = ltb expires_at (now + 900)
is_due (negsuc n) now = true

-- --server and --insecure, from argv[2] on.
unfoldable pub parse_options : List Bytes → Bytes × Bool → Bytes × Bool
parse_options [] options = options
parse_options (arg ∷ args) (server_url, insecure) = parse_options args (
  elim args [
    | [] ↦ server_url
    | next ∷ rest ↦ if str_eq arg (codes "--server") then next else server_url
  ],
  if str_eq arg (codes "--insecure") then true else insecure,
)

-- When a signal comes that finds no handler: after the server's answer and before the token is
-- saved, before client_wg_up, or after it.
pub data EarlySignal : Type 0 where
  before_saving before_tunnel after_tunnel : EarlySignal

module _ {N K : Type 0} (http : Http N) (m : Machine K) where
  module _ (s : Settings) where
    -- What client_api_renew leaves: the network, and the new expiry, which starts at 0.
    abbrev pub after_renewal : ClientConfig → N × Option ℤ → N × ClientConfig
    after_renewal config (n, none) = (n, config)
    after_renewal config (n, some new_exp) = (n, record config { expires_at = new_exp })

    -- One round of renew_thread_func that reaches the test, at `now`.
    unfoldable pub renew_round : Bytes → ℕ → N × ClientConfig → N × ClientConfig
    renew_round token now (n, config) =
        if is_due config.expires_at now
        then after_renewal config (client_api_renew http s token (pos 0) n)
        else (n, config)

    -- The rounds until keep_running is 0.
    unfoldable pub renew_thread_func : Bytes → List ℕ → N × ClientConfig → N × ClientConfig
    renew_thread_func token [] state = state
    renew_thread_func token (now ∷ times) state =
        renew_thread_func token times (renew_round token now state)

    -- client_wg_up has answered: the exit status, and what is left.
    unfoldable pub run_tunnel :
        Bytes → ClientConfig → List ℕ → N → Option Bytes → K × Rc → Option ℕ × Client N K
    run_tunnel token config times n file (k, failure) = (
      some 1,
      record { network = (client_api_logout http s token n).0; machine = k; token_file = none },
    )
    run_tunnel token config times n file (k, success) = (
      some 0,
      record {
        network = (client_api_logout http s token (renew_thread_func token times (n, config)).0).0;
        machine = client_wg_down m ifname k;
        token_file = none;
      },
    )

    -- A signal that comes before its handler is installed ends the client where it is.
    unfoldable pub killed :
        EarlySignal → ClientConfig → N → K → Option Bytes → Option Bytes → Client N K
    killed before_saving config n k file saved = record {
      network = n;
      machine = k;
      token_file = file;
    }
    killed before_tunnel config n k file saved = record {
      network = n;
      machine = k;
      token_file = saved;
    }
    killed after_tunnel config n k file saved = record {
      network = n;
      machine = (client_wg_up m ifname config k).0;
      token_file = saved;
    }

    -- client_api_login has answered.
    unfoldable pub logged_in :
        Option EarlySignal
        → Bool
        → List ℕ
        → K
        → Option Bytes
        → N × Option ClientConfig
        → Option ℕ × Client N K
    logged_in early writable times k file (n, none) =
        (some 1, record { network = n; machine = k; token_file = file })
    logged_in early writable times k file (n, some config) =
        let token = strncpy 256 config.session_token in
        let saved = save_token writable token file in
        elim early [
          | none ↦ run_tunnel token config times n saved (client_wg_up m ifname config k)
          | some moment ↦ (none, killed moment config n k file saved)
        ]

    -- `login`, with the times of the renewal rounds before the signal that ends the tunnel. Where
    -- an early signal ends the client, there is no exit status.
    unfoldable pub login :
        Option EarlySignal → Bool → List ℕ → Bytes → Bytes → Client N K → Option ℕ × Client N K
    login early writable times username password c =
        logged_in early writable times c.machine c.token_file
          (client_api_login http s username (strncpy 256 password) c.network)

    -- `status`, with what it prints of the session.
    unfoldable pub status : Client N K → ℕ × Option ClientStatus × Client N K
    status c = elim (load_token 256 c.token_file) [
      | [] ↦ (1, none, c)
      | d ∷ token ↦
          let (n, stats) = client_api_status http s (d ∷ token) c.network in
          (0, stats, record c { network = n })
    ]

    unfoldable pub logout : Client N K → ℕ × Client N K
    logout c = elim (load_token 256 c.token_file) [
      | [] ↦ (0, record c { machine = client_wg_down m ifname c.machine })
      | d ∷ token ↦ (
        0,
        record {
          network = (client_api_logout http s (d ∷ token) c.network).0;
          machine = client_wg_down m ifname c.machine;
          token_file = none;
        },
      )
    ]

    -- The command itself, and what follows it.
    unfoldable pub run_command :
        Option EarlySignal → Bool → List ℕ → Bytes → List Bytes → Client N K → Option ℕ × Client N K
    run_command early writable times cmd args c =
        if str_eq cmd (codes "login")
        then elim args [
          | [] ↦ (some 1, c)
          | username ∷ [] ↦ (some 1, c)
          | username ∷ password ∷ rest ↦ login early writable times username password c
        ]
        else if str_eq cmd (codes "status")
        then (let (code, stats, c') = status c in (some code, c'))
        else if str_eq cmd (codes "logout")
        then (let (code, c') = logout c in (some code, c'))
        else (some 1, c)

  -- main, with argv from argv[1] on.
  unfoldable pub main :
      Option EarlySignal → Bool → List ℕ → List Bytes → Client N K → Option ℕ × Client N K
  main early writable times [] c = (some 1, c)
  main early writable times (cmd ∷ args) c =
      let (server_url, insecure) = parse_options args (codes "https://127.0.0.1:8443", false) in
      run_command (client_api_init server_url [] insecure) early writable times cmd args c
