-- ===== src/Windows/Dll/Session.antt =====
-- The life of a session of the Windows client: the state that its calls leave, and its end.
use wg_auth.Base.{
  ℕ, ◌≡◌, ◌≢◌, ◌⊎◌, ◌++◌, refl, sym, subst, ◌∙◌, Bool, true, false, not, [], Option, none, some,
  Bytes, codes, Bool-cases, inl, inr, ◌==◌, if◌then◌else◌,
}
use wg_auth.Libc.{ℤ, pos, negsuc}
use wg_auth.Windows.Dll.Login.{
  Kept, LoginEnd, refused, unwritten, uninstalled, tunnelled, wg_login-LoginEnd,
}
use wg_auth.Windows.Dll.{
  Dll, send_json, token_request, after_renewal, renew_round, wg_login, wg_logout, wg_set_insecure,
  delete_conf, uninstall_tunnel, set_status,
}
use wg_auth.Windows.WinHttp.{post_json}
use wg_auth.Windows.{WinHttpLib, WinMachine}

module _ {N K : Type 0} (lib : WinHttpLib N) (m : WinMachine K) (rounds : ℕ) where
  -- One call of the library, or one renewal of its thread, which runs with a session only.
  pub data Use : Dll N K → Dll N K → Type 0 where
    logs_in :
        (username password server_url : Option Bytes) (d : Dll N K)
        → Use d (wg_login lib m rounds username password server_url d).1
    renews : (d : Dll N K) → d.is_running ≡ true → Use d (renew_round lib m rounds d)
    logs_out : (d : Dll N K) → Use d (wg_logout lib m rounds d)
    sets_insecure : (insecure : ℤ) (d : Dll N K) → Use d (wg_set_insecure insecure d)

  -- What the library comes to from its first state.
  pub data Used : Dll N K → Type 0 where
    loaded :
        (n : N) (k : K)
        → Used (record {
          server_url = [];
          session_token = [];
          insecure = false;
          is_running = false;
          is_connected = false;
          status = codes "Disconnected";
          network = n;
          machine = k;
        })
    uses : (d e : Dll N K) → Used d → Use d e → Used e

  -- The library says that it is connected exactly while a session runs, and a session that runs is
  -- "Connected" or has failed to be renewed.
  pub record IsConsistent (d : Dll N K) : Type 0 where
    pub paired : d.is_connected ≡ d.is_running
    pub told : d.status ≡ codes "Connected" → d.is_running ≡ true
    pub shown :
        d.is_running ≡ true → (d.status ≡ codes "Connected") ⊎ (d.status ≡ codes "Renew Failed")

  idle-Kept :
      (username password : Option Bytes) (d e : Dll N K)
      → d.is_running ≡ false
      → IsConsistent d
      → Kept lib m rounds username password d e
      → IsConsistent e
  idle-Kept username password d e idle c kept = record {
    paired = kept.connected ∙ c.paired ∙ sym kept.running;
    told = λ s. absurd (kept.reported s);
    shown = λ r. cc (idle, kept.running, r);
  }

  logged_in-IsConsistent :
      (username password server_url : Option Bytes) (d : Dll N K)
      → d.is_running ≡ false
      → IsConsistent d
      → (r : ℤ × Dll N K) → LoginEnd lib m rounds username password d r
      → IsConsistent r.1
  logged_in-IsConsistent u p s d idle c r (refused n code kept token same) =
      idle-Kept u p d r.1 idle c kept
  logged_in-IsConsistent u p s d idle c r (unwritten t a code kept token w same) =
      idle-Kept u p d r.1 idle c kept
  logged_in-IsConsistent u p s d idle c r (uninstalled t k a code kept token w i) =
      idle-Kept u p d r.1 idle c kept
  logged_in-IsConsistent u p s d idle c r (tunnelled t k a code run con opt status token w i) =
      record { paired = con ∙ sym run; told = λ e. run; shown = λ e. inl status }

  running_login :
      (username password server_url : Option Bytes) (d : Dll N K)
      → d.is_running ≡ true
      → wg_login lib m rounds username password server_url d ≡ (pos 0, d)
  unfolding wg_login
  running_login username password server_url d running = taken d.is_running _ _ running
    where
      taken : (b : Bool) (x y : ℤ × Dll N K) → b ≡ true → (if b then x else y) ≡ x
      taken true x y e = refl
      taken false x y e = cc

  -- A renewal changes the status and the network only.
  pub record Renewed (d e : Dll N K) : Type 0 where
    pub url : e.server_url ≡ d.server_url
    pub token : e.session_token ≡ d.session_token
    pub option : e.insecure ≡ d.insecure
    pub running : e.is_running ≡ d.is_running
    pub connected : e.is_connected ≡ d.is_connected
    pub machine : e.machine ≡ d.machine
    pub told : (e.status ≡ d.status) ⊎ (e.status ≡ codes "Renew Failed")

  after_renewal-Renewed :
      (d : Dll N K) (n : N) (reply : Option (ℕ × Bytes))
      → Renewed d (after_renewal lib m rounds (record d { network = n }, reply))
  unfolding set_status
  after_renewal-Renewed d n none = record {
    url = refl;
    token = refl;
    option = refl;
    running = refl;
    connected = refl;
    machine = refl;
    told = inl refl;
  }
  after_renewal-Renewed d n (some (status_code, body)) = elim (Bool-cases (status_code == 200)) [
    | inl ok ↦ rw ok (record {
      url = refl;
      token = refl;
      option = refl;
      running = refl;
      connected = refl;
      machine = refl;
      told = inl refl;
    })
    | inr bad ↦ rw bad (record {
      url = refl;
      token = refl;
      option = refl;
      running = refl;
      connected = refl;
      machine = refl;
      told = inr refl;
    })
  ]

  pub renew_round-Renewed : (d : Dll N K) → Renewed d (renew_round lib m rounds d)
  unfolding renew_round send_json
  renew_round-Renewed d =
      after_renewal-Renewed d _
        (post_json lib rounds (d.server_url ++ codes "/renew") (token_request lib m rounds d)
          d.insecure d.network).1

  -- The end of the session that runs.
  pub wg_logout_lem :
      (d : Dll N K)
      → d.is_running ≡ true
      → let e = wg_logout lib m rounds d in
        (e.is_running ≡ false)
        × (e.is_connected ≡ false)
        × (e.status ≡ codes "Disconnected")
        × (e.session_token ≡ [])
        × (e.machine ≡ delete_conf lib m rounds (uninstall_tunnel lib m rounds d.machine))
        × (e.network
            ≡ (post_json lib rounds
                (d.server_url ++ codes "/logout")
                (token_request lib m rounds d)
                d.insecure
                d.network).0)
  unfolding wg_logout send_json set_status
  wg_logout_lem d running = rw (wg_logout, running) (refl, refl, refl, refl, refl, refl)

  wg_logout_idle : (d : Dll N K) → d.is_running ≡ false → wg_logout lib m rounds d ≡ d
  unfolding wg_logout
  wg_logout_idle d idle = taken d.is_running _ _ idle
    where
      taken : (b : Bool) (x y : Dll N K) → b ≡ false → (if not b then x else y) ≡ x
      taken true x y e = cc
      taken false x y e = refl

  Use-IsConsistent : (d e : Dll N K) → Use d e → IsConsistent d → IsConsistent e
  unfolding wg_set_insecure
  Use-IsConsistent d _ (logs_in u p s _) c = elim (Bool-cases d.is_running) [
    | inl run ↦ subst (λ r. IsConsistent r.1) (sym (running_login u p s d run)) c
    | inr idle ↦
        logged_in-IsConsistent u p s d idle c _ (wg_login-LoginEnd lib m rounds u p d s idle)
  ]
  Use-IsConsistent d _ (renews _ run) c =
      let r = renew_round-Renewed d in
      record {
        paired = r.connected ∙ c.paired ∙ sym r.running;
        told = λ s. r.running ∙ run;
        shown = λ s. elim r.told [
          | inl same ↦ elim (c.shown run) [
            | inl up ↦ inl (same ∙ up)
            | inr down ↦ inr (same ∙ down)
          ]
          | inr failed ↦ inr failed
        ];
      }
  Use-IsConsistent d _ (logs_out _) c = elim (Bool-cases d.is_running) [
    | inr idle ↦ subst IsConsistent (sym (wg_logout_idle d idle)) c
    | inl run ↦
        let (stopped, gone, status, token, machine, network) = wg_logout_lem d run in
        record {
          paired = gone ∙ sym stopped;
          told = λ s. absurd (disconnected (sym status ∙ s));
          shown = λ s. cc (stopped, s);
        }
  ]
    where
      disconnected : codes "Disconnected" ≢ codes "Connected"
      disconnected e = cc
  Use-IsConsistent d _ (sets_insecure (pos n) _) c = record {
    paired = c.paired;
    told = c.told;
    shown = c.shown;
  }
  Use-IsConsistent d _ (sets_insecure (negsuc n) _) c = record {
    paired = c.paired;
    told = c.told;
    shown = c.shown;
  }

  -- Whatever calls of the library and renewals of its thread come in whatever order, it says that
  -- it is connected exactly while a session runs, it shows "Connected" only then, and while a
  -- session runs it shows "Connected" or "Renew Failed".
  pub Used-IsConsistent : (d : Dll N K) → Used d → IsConsistent d
  Used-IsConsistent _ (loaded n k) = record { paired = refl; told = λ s. cc; shown = λ s. cc }
  Used-IsConsistent _ (uses d e before one) = Use-IsConsistent d e one (Used-IsConsistent d before)
