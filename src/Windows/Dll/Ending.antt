-- ===== src/Windows/Dll/Ending.antt =====
-- The end of a session of the Windows client, after any number of renewals.
use wg_auth.Base.{ℕ, zero, suc, ◌≡◌, ◌++◌, refl, ◌∙◌, ap, true, false, [], codes}
use wg_auth.Windows.Dll.{Dll, token_request, renew_round, wg_logout, delete_conf, uninstall_tunnel}
use wg_auth.Windows.WinHttp.{post_json}
use wg_auth.Windows.{WinHttpLib, WinMachine}
use wg_auth.Windows.Dll.Session.{renew_round-Renewed, wg_logout_lem}

module _ {N K : Type 0} (lib : WinHttpLib N) (m : WinMachine K) (rounds : ℕ) where
  -- The rounds of the thread.
  abbrev pub renewed : ℕ → Dll N K → Dll N K
  renewed zero d = d
  renewed (suc n) d = renewed n (renew_round lib m rounds d)

  renewed-Renewed :
      (n : ℕ) (d : Dll N K)
      → (renewed n d).is_running ≡ d.is_running
        × ((renewed n d).session_token ≡ d.session_token)
        × ((renewed n d).server_url ≡ d.server_url)
        × ((renewed n d).insecure ≡ d.insecure)
        × ((renewed n d).machine ≡ d.machine)
  renewed-Renewed zero d = (refl, refl, refl, refl, refl)
  renewed-Renewed (suc n) d =
      let r = renew_round-Renewed lib m rounds d in
      let (run, token, url, option, machine) = renewed-Renewed n (renew_round lib m rounds d) in
      (run ∙ r.running, token ∙ r.token, url ∙ r.url, option ∙ r.option, machine ∙ r.machine)

  same_request :
      (d e : Dll N K) (n : N)
      → e.session_token ≡ d.session_token
      → e.server_url ≡ d.server_url
      → e.insecure ≡ d.insecure
      → (post_json lib rounds
          (e.server_url ++ codes "/logout")
          (token_request lib m rounds e)
          e.insecure
          n).0
        ≡ (post_json lib rounds
            (d.server_url ++ codes "/logout")
            (token_request lib m rounds d)
            d.insecure
            n).0
  same_request d e n token url option = rw (token, url, option) refl

  -- A session that runs, after any number of renewals, ends with WgLogout: its last request is the
  -- logout with the token of the session, to the server of the session, whatever the answer; the
  -- tunnel is uninstalled and wg-vpn.conf deleted from the machine as the login left it, the token
  -- is emptied, and no session runs.
  pub wg_logout_ends :
      (n : ℕ) (d : Dll N K)
      → d.is_running ≡ true
      → let e = wg_logout lib m rounds (renewed n d) in
        (e.is_running ≡ false)
        × (e.is_connected ≡ false)
        × (e.session_token ≡ [])
        × (e.machine ≡ delete_conf lib m rounds (uninstall_tunnel lib m rounds d.machine))
        × ((at_end : N) × (e.network
              ≡ (post_json lib rounds
                  (d.server_url ++ codes "/logout")
                  (token_request lib m rounds d)
                  d.insecure
                  at_end).0))
  wg_logout_ends n d running =
      let (run, token, url, option, machine) = renewed-Renewed n d in
      let (stopped, gone, status, emptied, cleaned, asked) =
        wg_logout_lem lib m rounds (renewed n d) (run ∙ running) in
      (
        stopped,
        gone,
        emptied,
        cleaned ∙ ap (λ k. delete_conf lib m rounds (uninstall_tunnel lib m rounds k)) machine,
        ((renewed n d).network, asked ∙ same_request d (renewed n d) _ token url option),
      )
