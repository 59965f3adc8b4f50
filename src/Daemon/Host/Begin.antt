-- ===== src/Daemon/Host/Begin.antt =====
-- What a daemon has that has come to its loop.
use wg_auth.Base.{
  ◌≡◌, refl, sym, subst, ◌∙◌, ap, ◌&&◌, some, some_injective, Rc, success, failure, Bool-cases,
  Option-cases, inl, inr,
}
use wg_auth.Api.Listener.{Listener, Serves, api_start-Serves}
use wg_auth.Config.Bounds.{IsValid, load_config-IsValid}
use wg_auth.Config.{ServerConfig}
use wg_auth.Daemon.Host.{
  Host, g_config, stored_tables, opened_db, listening, kernel_after, boot_of, main_start,
}
use wg_auth.Daemon.{Boot, start, start_pooled, Reachable, starts}
use wg_auth.Db.Init.{Tables, db_init_keeps, db_of, stored_db}
use wg_auth.Db.Rows.{UniqueIds, IdsBelow}
use wg_auth.Db.{Db, runs, db_revoke_all_active_sessions}
use wg_auth.External.{External}
use wg_auth.IpPool.{Pool}
use wg_auth.Server.{Server}

opened_db_cases :
    (t : Tables) (r : Tables × Rc) (db : Db)
    → (r.1 ≡ success → db_of r.0 ≡ some (stored_db t))
    → opened_db r ≡ some db
    → db ≡ stored_db t
unfolding opened_db
opened_db_cases t (t', success) db kept e = some_injective (sym e ∙ kept refl)
opened_db_cases t (t', failure) db kept e = cc

module _ {K : Type 0} (ext : External K) where
  -- The tables and the kernel of a server that has started.
  record Fresh (boot : Boot K) (st : Server K) : Type 0 where
    db : Db
    opened : boot.opened ≡ some db
    revoked : st.db ≡ db_revoke_all_active_sessions boot.revoke_run db
    interfaces : st.kernel ≡ boot.kernel

  start_pooled-Fresh :
      (cfg : ServerConfig) (boot : Boot K) (db : Db) (r : Pool × Rc) (st : Server K)
      → boot.opened ≡ some db
      → start_pooled ext cfg boot db r ≡ some st
      → Fresh boot st
  unfolding start_pooled
  start_pooled-Fresh cfg boot db (q, failure) st opened e = cc
  start_pooled-Fresh cfg boot db (q, success) st opened e =
      elim (Bool-cases (boot.api_starts && boot.reaper_starts)) [
        | inr stopped ↦ cc (rw (start_pooled, stopped) at e)
        | inl up ↦
            let same = some_injective (rw (start_pooled, up) at e) in
            record {
              db = db;
              opened = opened;
              revoked = ap (λ s. s.db) (sym same);
              interfaces = ap (λ s. s.kernel) (sym same);
            }
      ]

  start-Fresh :
      (cfg : ServerConfig) (boot : Boot K) (st : Server K)
      → start ext cfg boot ≡ some st
      → Fresh boot st
  unfolding start
  start-Fresh cfg boot st e = elim (Bool-cases boot.sodium_ready) [
    | inr unready ↦ cc (rw (start, unready) at e)
    | inl ready ↦ elim (Option-cases boot.opened) [
      | inl shut ↦ cc (rw (start, ready, shut) at e)
      | inr (db, opened) ↦
          start_pooled-Fresh cfg boot db _ st opened (rw (start, ready, opened) at e)
    ]
  ]

  module _ (h : Host K) where
    -- The state and the listener that the daemon begins with.
    pub record Begun (st : Server K) (listener : Listener) : Type 0 where
      pub config : IsValid (g_config h)
      pub stored : st.db ≡ db_revoke_all_active_sessions runs (stored_db (stored_tables h))
      pub interfaces : st.kernel ≡ kernel_after ext h
      pub served : Serves (g_config h) h.files (some listener)
      pub reachable : Reachable ext (g_config h) st

    main_start_from :
        (st : Server K) (listener : Listener)
        → UniqueIds (stored_db (stored_tables h)).sessions
        → IdsBelow (stored_db (stored_tables h)).next_session (stored_db (stored_tables h)).sessions
        → h.revoke_run ≡ runs
        → start ext (g_config h) (boot_of ext h) ≡ some st
        → listening ext h ≡ some listener
        → Begun st listener
    main_start_from st listener u b run up heard =
        let fresh = start-Fresh (g_config h) (boot_of ext h) st up in
        let same =
          opened_db_cases (stored_tables h) _ fresh.db (db_init_keeps h.opening (stored_tables h)).1
            fresh.opened in
        record {
          config = load_config-IsValid h.conf;
          stored =
              fresh.revoked
              ∙ ap (λ r. db_revoke_all_active_sessions r fresh.db) run
              ∙ ap (db_revoke_all_active_sessions runs) same;
          interfaces = fresh.interfaces;
          served =
              subst (Serves (g_config h) h.files) heard
                (api_start-Serves (g_config h) h.files h.api_starts);
          reachable =
              starts (boot_of ext h) fresh.db st fresh.opened (rw same u) (rw same b) run up;
        }

    -- Where main comes to its loop, the ids of the stored sessions are apart, and SQLite ran the
    -- UPDATE of all sessions: the configuration is within its bounds, the tables are the stored
    -- ones with every session revoked, the interfaces are those that wgctl_load_static_config
    -- leaves, the listener serves TLS or there is a file that is not configured or not readable,
    -- and the state is one of those that the daemon reaches.
    pub main_start-Begun :
        (st : Server K) (listener : Listener)
        → UniqueIds (stored_db (stored_tables h)).sessions
        → IdsBelow (stored_db (stored_tables h)).next_session (stored_db (stored_tables h)).sessions
        → h.revoke_run ≡ runs
        → main_start ext h ≡ some (st, listener)
        → Begun st listener
    unfolding main_start
    main_start-Begun st listener u b run e =
        elim (Option-cases (start ext (g_config h) (boot_of ext h))) [
          | inl stopped ↦ cc (rw (main_start, stopped) at e)
          | inr (st', up) ↦ elim (Option-cases (listening ext h)) [
            | inl silent ↦ cc (rw (main_start, up, silent) at e)
            | inr (listener', heard) ↦
                let same = some_injective (rw (main_start, up, heard) at e) in
                subst (λ p. Begun p.0 p.1) same (main_start_from st' listener' u b run up heard)
          ]
        ]
