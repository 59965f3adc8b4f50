-- ===== src/Windows/Dll.antt =====
-- windows/client/src/authwg.cpp: the exported functions, and the thread that renews the session.
-- WgLogout waits for the thread, so its rounds come between a login and the logout. std::ofstream
-- is taken to write what it has opened.
pub mod Login
pub mod Session
pub mod Ending
use wg_auth.Base.{
  ℕ, zero, suc, ◌+◌, ◌-◌, Bool, true, false, ◌||◌, not, List, [], ◌∷◌, ◌++◌, Option, none, some,
  Bytes, String, codes, strncpy, ◌==◌, if◌then◌else◌,
}
use wg_auth.Client.{Member, string, number, other, Response}
use wg_auth.Config.Load.{to_nul}
use wg_auth.Libc.{ℤ, pos, negsuc}
use wg_auth.Windows.WinHttp.{starts_with, post_json}
use wg_auth.Windows.{WinHttpLib, ProcessEnd, exited, timed_out, WinMachine}
use wg_auth.Windows.Conf.{
  TunnelConf, string_item, safe_get_string, absolute_conf_path, wireguard_exe, quoted, conf_text,
  tunnel_conf,
}

-- The static variables, with the network and the machine that the functions work on.
pub record Dll (N K : Type 0) : Type 0 where
  pub server_url : Bytes
  pub session_token : Bytes
  pub insecure : Bool
  pub is_running : Bool
  pub is_connected : Bool
  pub status : Bytes
  pub network : N
  pub machine : K

-- A URL less one slash at its end.
unfoldable pub strip_slash : Bytes → Bytes
strip_slash [] = []
strip_slash (c ∷ []) = if c == b'/' then [] else c ∷ []
strip_slash (c ∷ d ∷ url) = c ∷ strip_slash (d ∷ url)

-- WgGetStatus: the buffer of `max_len` bytes, where there is one; `none` is the -1.
unfoldable pub copy_status : ℕ → Bytes → Option Bytes
copy_status zero status = none
copy_status (suc n) status = some (strncpy (suc n) status)

module _ {N K : Type 0} where
  unfoldable pub set_status : Bytes → Dll N K → Dll N K
  set_status status d = record d { status = status }

  unfoldable pub wg_get_status : ℕ → Dll N K → Option Bytes
  wg_get_status max_len d = copy_status max_len d.status

  unfoldable pub wg_set_insecure : ℤ → Dll N K → Dll N K
  wg_set_insecure (pos n) d = record d { insecure = not (n == 0) }
  wg_set_insecure (negsuc n) d = record d { insecure = true }

abbrev pub no_scheme : Bytes
no_scheme = codes "Server URL must start with https:// or http://"

-- The status of a refused login, from its "error".
abbrev pub auth_failed : Option Bytes → Bytes
auth_failed none = codes "Auth Failed"
auth_failed (some err) = codes "Auth Failed: " ++ err

abbrev pub has_scheme : Bytes → Bool
has_scheme url = starts_with (codes "https://") url || starts_with (codes "http://") url

-- The loop over a body has `rounds` rounds.
module _ {N K : Type 0} (lib : WinHttpLib N) (m : WinMachine K) (rounds : ℕ) where
  -- The process has ended, or is ended after five seconds; whether its exit code is 0.
  unfoldable pub process_ended : K × Option ProcessEnd → K × Bool
  process_ended (k, none) = (k, false)
  process_ended (k, some timed_out) = (m.terminate_process k, false)
  process_ended (k, some (exited code)) = (k, code == 0)

  unfoldable pub install_tunnel : Bytes → K → K × Bool
  install_tunnel conf_path k = process_ended (
      m.create_process (wireguard_exe m.exe_path)
        (quoted (wireguard_exe m.exe_path) ++ (codes " /installtunnelservice " ++ quoted conf_path))
        k)

  unfoldable pub uninstall_tunnel : K → K
  uninstall_tunnel k =
      (process_ended (
        m.create_process (wireguard_exe m.exe_path)
          (quoted (wireguard_exe m.exe_path) ++ codes " /uninstalltunnelservice wg-vpn") k)).0

  unfoldable pub send_json : Bytes → Bytes → Dll N K → Dll N K × Option (ℕ × Bytes)
  send_json path req_str d =
      let (n, reply) = post_json lib rounds (d.server_url ++ path) req_str d.insecure d.network in
      (record d { network = n }, reply)

  abbrev pub token_request : Dll N K → Bytes
  token_request d = m.print_strings (("session_token", some d.session_token) ∷ [])

  abbrev pub after_renewal : Dll N K × Option (ℕ × Bytes) → Dll N K
  after_renewal (d, none) = d
  after_renewal (d, some (status_code, body)) =
      if status_code == 200 then d else set_status (codes "Renew Failed") d

  -- A round of RenewThreadFunc whose six hours have passed.
  unfoldable pub renew_round : Dll N K → Dll N K
  renew_round d = after_renewal (send_json (codes "/renew") (token_request d) d)

  -- InstallTunnel has answered.
  unfoldable pub tunnel_installed : Dll N K → K × Bool → ℤ × Dll N K
  tunnel_installed d (k, false) =
      (negsuc 3, set_status (codes "WireGuard Install Failed") (record d { machine = k }))
  tunnel_installed d (k, true) = (
    pos 0,
    set_status (codes "Connected")
        (record d { machine = k; is_running = true; is_connected = true }),
  )

  -- The file has been opened, and written.
  unfoldable pub conf_written : Dll N K → Option K → ℤ × Dll N K
  conf_written d none = (negsuc 2, set_status (codes "Cannot write conf") d)
  conf_written d (some k) = tunnel_installed d (install_tunnel (absolute_conf_path m.exe_path) k)

  unfoldable pub login_granted : Dll N K → Option TunnelConf → ℤ × Dll N K
  login_granted d none = (negsuc 1, set_status (codes "Invalid server response (missing fields)") d)
  login_granted d (some t) =
      conf_written (record d { session_token = t.token })
        (m.write_file (absolute_conf_path m.exe_path) (conf_text t) d.machine)

  unfoldable pub login_parsed : Dll N K → ℕ → Option Response → ℤ × Dll N K
  login_parsed d status_code none = (negsuc 1, set_status (codes "Invalid Response") d)
  login_parsed d status_code (some obj) =
      if status_code == 200
      then login_granted d (tunnel_conf obj)
      else (negsuc 1, set_status (auth_failed (string_item (obj "error"))) d)

  unfoldable pub login_answered : Dll N K × Option (ℕ × Bytes) → ℤ × Dll N K
  login_answered (d, none) = (negsuc 0, set_status (codes "Network Error") d)
  login_answered (d, some (status_code, body)) =
      login_parsed d status_code (m.parse_json (to_nul body))

  -- The state in which WgLogin sends its request.
  abbrev pub connecting : Bytes → Dll N K → Dll N K
  connecting url d = record (set_status (codes "Connecting...") d) { server_url = strip_slash url }

  abbrev pub login_request : Option Bytes → Option Bytes → Bytes
  login_request username password =
      m.print_strings (("username", username) ∷ ("password", password) ∷ [])

  -- WgLogin; `none` is NULL.
  unfoldable pub wg_login : Option Bytes → Option Bytes → Option Bytes → Dll N K → ℤ × Dll N K
  wg_login username password server_url d = if d.is_running then (pos 0, d) else elim server_url [
    | none ↦ (negsuc 0, set_status no_scheme d)
    | some url ↦
        if has_scheme url
        then login_answered
            (send_json (codes "/login") (login_request username password) (connecting url d))
        else (negsuc 0, set_status no_scheme d)
  ]

  abbrev pub delete_conf : K → K
  delete_conf = m.delete_file (absolute_conf_path m.exe_path)

  -- WgLogout returns 0.
  unfoldable pub wg_logout : Dll N K → Dll N K
  wg_logout d =
      let stopped = record (set_status (codes "Disconnecting...") d) { is_running = false } in
      let asked = (send_json (codes "/logout") (token_request stopped) stopped).0 in
      if not d.is_running then d else record (set_status (codes "Disconnected") asked) {
        machine = delete_conf (uninstall_tunnel asked.machine);
        is_connected = false;
        session_token = [];
      }

  -- DllMain, where the process detaches.
  unfoldable pub dll_detach : Dll N K → Dll N K
  dll_detach d = record d { machine = delete_conf d.machine }
