-- ===== src/Windows/Dll/Login.antt =====
-- How WgLogin ends.
use wg_auth.Base.{
  ℕ, ◌≡◌, ◌≢◌, refl, Bool, true, false, Option, none, some, Bytes, codes, Bool-cases, inl, inr,
  ◌==◌, if◌then◌else◌, arith,
}
use wg_auth.Client.{Response}
use wg_auth.Config.Load.{to_nul}
use wg_auth.Libc.{ℤ, pos, negsuc}
use wg_auth.Windows.Conf.{TunnelConf, conf_text, absolute_conf_path, tunnel_conf, string_item}
use wg_auth.Windows.Dll.{
  Dll, install_tunnel, send_json, connecting, has_scheme, login_request, tunnel_installed,
  conf_written, login_granted, login_parsed, login_answered, wg_login, set_status, auth_failed,
}
use wg_auth.Windows.{WinHttpLib, WinMachine}

module _ {N K : Type 0} (lib : WinHttpLib N) (m : WinMachine K) (rounds : ℕ)
    (username password : Option Bytes) (d : Dll N K) where
  -- What the login did not touch.
  pub record Kept (e : Dll N K) : Type 0 where
    pub running : e.is_running ≡ d.is_running
    pub connected : e.is_connected ≡ d.is_connected
    pub option : e.insecure ≡ d.insecure
    pub reported : e.status ≢ codes "Connected"

  -- The server has answered 200 with an object that has the strings of this tunnel.
  pub record Answered (t : TunnelConf) : Type 0 where
    pub url : Bytes
    pub schemed : has_scheme url ≡ true
    pub body : Bytes
    pub replied :
        (send_json lib m rounds
          (codes "/login")
          (login_request lib m rounds username password)
          (connecting lib m rounds url d)).1
        ≡ some (200, body)
    pub obj : Response
    pub parsed : m.parse_json (to_nul body) ≡ some obj
    pub complete : tunnel_conf obj ≡ some t

  pub data LoginEnd (r : ℤ × Dll N K) : Type 0 where
    -- No session was granted.
    refused :
        (n : ℕ)
        → r.0 ≡ negsuc n
        → Kept r.1
        → r.1.session_token ≡ d.session_token
        → r.1.machine ≡ d.machine
        → LoginEnd r
    -- A session was granted, and wg-vpn.conf could not be opened.
    unwritten :
        (t : TunnelConf)
        → Answered t
        → r.0 ≡ negsuc 2
        → Kept r.1
        → r.1.session_token ≡ t.token
        → m.write_file (absolute_conf_path m.exe_path) (conf_text t) d.machine ≡ none
        → r.1.machine ≡ d.machine
        → LoginEnd r
    -- A session was granted, and wireguard.exe failed on the file.
    uninstalled :
        (t : TunnelConf) (k : K)
        → Answered t
        → r.0 ≡ negsuc 3
        → Kept r.1
        → r.1.session_token ≡ t.token
        → m.write_file (absolute_conf_path m.exe_path) (conf_text t) d.machine ≡ some k
        → install_tunnel lib m rounds (absolute_conf_path m.exe_path) k ≡ (r.1.machine, false)
        → LoginEnd r
    -- A session was granted and its tunnel is installed.
    tunnelled :
        (t : TunnelConf) (k : K)
        → Answered t
        → r.0 ≡ pos 0
        → r.1.is_running ≡ true
        → r.1.is_connected ≡ true
        → r.1.insecure ≡ d.insecure
        → r.1.status ≡ codes "Connected"
        → r.1.session_token ≡ t.token
        → m.write_file (absolute_conf_path m.exe_path) (conf_text t) d.machine ≡ some k
        → install_tunnel lib m rounds (absolute_conf_path m.exe_path) k ≡ (r.1.machine, true)
        → LoginEnd r

  -- The state when the response has come.
  pub record Before (e : Dll N K) : Type 0 where
    pub running : e.is_running ≡ d.is_running
    pub connected : e.is_connected ≡ d.is_connected
    pub option : e.insecure ≡ d.insecure
    pub token : e.session_token ≡ d.session_token
    pub machine : e.machine ≡ d.machine

  -- The state with a status that is not "Connected".
  Before-Kept :
      (e : Dll N K) (text : Bytes) → text ≢ codes "Connected" → Before e → Kept (set_status text e)
  unfolding set_status
  Before-Kept e text other b = record {
    running = b.running;
    connected = b.connected;
    option = b.option;
    reported = other;
  }

  failed :
      (e : Dll N K) (n : ℕ) (text : Bytes)
      → text ≢ codes "Connected"
      → Before e
      → LoginEnd (negsuc n, set_status text e)
  unfolding set_status
  failed e n text other b = refused n refl (Before-Kept e text other b) b.token b.machine

  -- The state with the token of the response.
  pub record Holds (t : TunnelConf) (e : Dll N K) : Type 0 where
    pub running : e.is_running ≡ d.is_running
    pub connected : e.is_connected ≡ d.is_connected
    pub option : e.insecure ≡ d.insecure
    pub token : e.session_token ≡ t.token

  tunnel_installed-LoginEnd :
      (e : Dll N K) (t : TunnelConf) (k : K) (r : K × Bool)
      → Holds t e
      → Answered t
      → m.write_file (absolute_conf_path m.exe_path) (conf_text t) d.machine ≡ some k
      → install_tunnel lib m rounds (absolute_conf_path m.exe_path) k ≡ r
      → LoginEnd (tunnel_installed lib m rounds e r)
  unfolding tunnel_installed set_status
  tunnel_installed-LoginEnd e t k (k', false) h a w i =
      uninstalled t k a refl
        (record {
          running = h.running;
          connected = h.connected;
          option = h.option;
          reported = λ s. cc;
        })
        h.token w i
  tunnel_installed-LoginEnd e t k (k', true) h a w i =
      tunnelled t k a refl refl refl h.option refl h.token w i

  conf_written-LoginEnd :
      (e : Dll N K) (t : TunnelConf) (r : Option K)
      → Holds t e
      → e.machine ≡ d.machine
      → Answered t
      → m.write_file (absolute_conf_path m.exe_path) (conf_text t) d.machine ≡ r
      → LoginEnd (conf_written lib m rounds e r)
  unfolding conf_written set_status
  conf_written-LoginEnd e t none h same a w =
      unwritten t a refl
        (record {
          running = h.running;
          connected = h.connected;
          option = h.option;
          reported = λ s. cc;
        })
        h.token w same
  conf_written-LoginEnd e t (some k) h same a w = tunnel_installed-LoginEnd e t k _ h a w refl

  login_granted-LoginEnd :
      (e : Dll N K) (r : Option TunnelConf)
      → Before e
      → ((t : TunnelConf) → r ≡ some t → Answered t)
      → LoginEnd (login_granted lib m rounds e r)
  unfolding login_granted
  login_granted-LoginEnd e none b a = failed e 1 _ (λ s. cc) b
  login_granted-LoginEnd e (some t) b a =
      conf_written-LoginEnd _ t _
        (record { running = b.running; connected = b.connected; option = b.option; token = refl })
        b.machine (a t refl) (rw b.machine refl)

  auth_failed_status : (err : Option Bytes) → auth_failed err ≢ codes "Connected"
  auth_failed_status none = λ s. cc
  auth_failed_status (some text) = λ s. cc

  login_parsed-LoginEnd :
      (e : Dll N K) (status_code : ℕ) (r : Option Response)
      → Before e
      → ((obj : Response) (t : TunnelConf)
          → status_code ≡ 200
          → r ≡ some obj
          → tunnel_conf obj ≡ some t
          → Answered t)
      → LoginEnd (login_parsed lib m rounds e status_code r)
  unfolding login_parsed
  login_parsed-LoginEnd e status_code none b a = failed e 1 _ (λ s. cc) b
  login_parsed-LoginEnd e status_code (some obj) b a = elim (Bool-cases (status_code == 200)) [
    | inl ok ↦
        rw (login_parsed, ok)
          (login_granted-LoginEnd e (tunnel_conf obj) b
            (λ t c. a obj t (ground (arith, ok)) refl c))
    | inr bad ↦
        rw (login_parsed, bad) (failed e 1 _ (auth_failed_status (string_item (obj "error"))) b)
  ]

  login_answered-LoginEnd :
      (url : Bytes) (r : Dll N K × Option (ℕ × Bytes))
      → has_scheme url ≡ true
      → Before r.0
      → (send_json lib m rounds
          (codes "/login")
          (login_request lib m rounds username password)
          (connecting lib m rounds url d)).1
        ≡ r.1
      → LoginEnd (login_answered lib m rounds r)
  unfolding login_answered
  login_answered-LoginEnd url (e, none) scheme b sent = failed e 0 _ (λ s. cc) b
  login_answered-LoginEnd url (e, some (status_code, body)) scheme b sent =
      login_parsed-LoginEnd e status_code (m.parse_json (to_nul body)) b
        (λ obj t ok parsed complete. record {
          url = url;
          schemed = scheme;
          body = body;
          replied = rw (← ok) sent;
          obj = obj;
          parsed = parsed;
          complete = complete;
        })

  connecting-Before :
      (url : Bytes)
      → Before
          (send_json lib m rounds
            (codes "/login")
            (login_request lib m rounds username password)
            (connecting lib m rounds url d)).0
  unfolding send_json set_status
  connecting-Before url = record {
    running = refl;
    connected = refl;
    option = refl;
    token = refl;
    machine = refl;
  }

  here-Before : Before d
  here-Before = record {
    running = refl;
    connected = refl;
    option = refl;
    token = refl;
    machine = refl;
  }

  otherwise :
      (b : Bool) (x y : ℤ × Dll N K) → b ≡ false → LoginEnd y → LoginEnd (if b then x else y)
  otherwise true x y e h = cc
  otherwise false x y e h = h

  pub wg_login-LoginEnd :
      (server_url : Option Bytes)
      → d.is_running ≡ false
      → LoginEnd (wg_login lib m rounds username password server_url d)
  unfolding wg_login
  wg_login-LoginEnd none idle = otherwise d.is_running _ _ idle (failed d 0 _ (λ s. cc) here-Before)
  wg_login-LoginEnd (some url) idle =
      otherwise d.is_running _ _ idle (elim (Bool-cases (has_scheme url)) [
        | inr bad ↦ rw bad (failed d 0 _ (λ s. cc) here-Before)
        | inl good ↦ rw good (login_answered-LoginEnd url _ good (connecting-Before url) refl)
      ])
