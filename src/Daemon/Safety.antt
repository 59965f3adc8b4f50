-- ===== src/Daemon/Safety.antt =====
-- The states that the daemon reaches, against the invariant of the leases.
use wg_auth.Base.{
  ◌≡◌, refl, subst, Bool, ◌&&◌, [], ◌∷◌, Option, none, some, some_injective, Bytes, Rc, success,
  failure, arith, Bool-cases, inl, inr, ◌<◌, ◌≤◌,
}
use wg_auth.Api.Login.Grant.{handle_login-IsExclusive}
use wg_auth.Api.Logout.Laws.{handle_logout-IsExclusive}
use wg_auth.Api.Renew.Laws.{handle_renew-IsExclusive}
use wg_auth.Api.Router.{Request, c_string, dispatch, api_router}
use wg_auth.Config.{ServerConfig}
use wg_auth.Daemon.{Boot, start, start_pooled, fresh_server, Step, serves, Reachable, starts, steps}
use wg_auth.Db.Holders.{holders, holders-revoke_active}
use wg_auth.Db.Rows.{UniqueIds, IdsBelow, revoke_active-UniqueIds, revoke_active-IdsBelow}
use wg_auth.Db.{Db, runs, db_revoke_all_active_sessions}
use wg_auth.External.{External, InetLaws}
use wg_auth.IpPool.Shape.{IsReady, ip_pool_init-IsReady}
use wg_auth.IpPool.{Pool, blank}
use wg_auth.Leases.{Backed, IsExclusive}
use wg_auth.Server.{Server, Calls}

module _ {K : Type 0} (ext : External K) (laws : InetLaws ext.net) (cfg : ServerConfig) where
  -- The sessions that an earlier run left are revoked, so no address is held.
  fresh-IsExclusive :
      (boot : Boot K) (db : Db) (q : Pool)
      → UniqueIds db.sessions
      → IdsBelow db.next_session db.sessions
      → boot.revoke_run ≡ runs
      → IsReady q
      → let st = fresh_server ext cfg boot q (db_revoke_all_active_sessions boot.revoke_run db) in
        IsExclusive ext.net st.pool st.db
  unfolding db_revoke_all_active_sessions
  fresh-IsExclusive boot db q u b run ready = rw run (record {
    ready = ready;
    unique = revoke_active-UniqueIds db.sessions u;
    below = revoke_active-IdsBelow db.next_session db.sessions b;
    once = λ ip. omega (arith, holders-revoke_active ip db.sessions);
    backed = λ ip h. absurd (omega (arith, holders-revoke_active ip db.sessions));
  })

  start_pooled-IsExclusive :
      (boot : Boot K) (db : Db) (st : Server K) (r : Pool × Rc)
      → UniqueIds db.sessions
      → IdsBelow db.next_session db.sessions
      → boot.revoke_run ≡ runs
      → ((q : Pool) → r ≡ (q, success) → IsReady q)
      → start_pooled ext cfg boot db r ≡ some st
      → IsExclusive ext.net st.pool st.db
  unfolding start_pooled
  start_pooled-IsExclusive boot db st (q, failure) u b run ready e = cc
  start_pooled-IsExclusive boot db st (q, success) u b run ready e =
      elim (Bool-cases (boot.api_starts && boot.reaper_starts)) [
        | inr stopped ↦ cc (rw (start_pooled, stopped) at e)
        | inl up ↦
            subst (λ s. IsExclusive ext.net s.pool s.db)
              (some_injective (rw (start_pooled, up) at e))
              (fresh-IsExclusive boot db q u b run (ready q refl))
      ]

  pub start-IsExclusive :
      (boot : Boot K) (db : Db) (st : Server K)
      → boot.opened ≡ some db
      → UniqueIds db.sessions
      → IdsBelow db.next_session db.sessions
      → boot.revoke_run ≡ runs
      → start ext cfg boot ≡ some st
      → IsExclusive ext.net st.pool st.db
  unfolding start
  start-IsExclusive boot db st opened u b run e = elim (Bool-cases boot.sodium_ready) [
    | inr unready ↦ cc (rw (start, unready) at e)
    | inl ready ↦
        start_pooled-IsExclusive boot db st _ u b run
          (λ q made. (ip_pool_init-IsReady ext.net laws _ _ blank q made).0)
          (rw (start, ready, opened) at e)
  ]

  dispatch-IsExclusive :
      (calls : Calls) (req : Request) (info : Bytes) (st : Server K)
      → calls.update_run ≡ runs
      → IsExclusive ext.net st.pool st.db
      → IsExclusive ext.net
          (dispatch ext cfg calls req info st).0.pool
          (dispatch ext cfg calls req info st).0.db
  unfolding dispatch
  dispatch-IsExclusive calls req info st run x = ground (
    arith,
    handle_login-IsExclusive ext laws cfg calls req.address (c_string info) st x,
    handle_logout-IsExclusive ext cfg calls laws (c_string info) st run x,
    handle_renew-IsExclusive ext cfg calls (c_string info) st x,
    x,
  )

  api_router-IsExclusive :
      (calls : Calls) (req : Request) (info : Option Bytes) (memory : Bool) (part : Bytes)
      (st : Server K)
      → calls.update_run ≡ runs
      → IsExclusive ext.net st.pool st.db
      → IsExclusive ext.net
          (api_router ext cfg calls req info memory part st).0.pool
          (api_router ext cfg calls req info memory part st).0.db
  unfolding api_router
  api_router-IsExclusive calls req none memory part st run x = x
  api_router-IsExclusive calls req (some info) memory [] st run x =
      dispatch-IsExclusive calls req info st run x
  api_router-IsExclusive calls req (some info) memory (c ∷ part) st run x = x

  Step-IsExclusive :
      (st st' : Server K)
      → Step ext cfg st st'
      → IsExclusive ext.net st.pool st.db
      → IsExclusive ext.net st'.pool st'.db
  Step-IsExclusive _ _ (serves calls req info memory part st run) x =
      api_router-IsExclusive calls req info memory part st run x

  pub Reachable-IsExclusive :
      (st : Server K) → Reachable ext cfg st → IsExclusive ext.net st.pool st.db
  Reachable-IsExclusive _ (starts boot db st opened u b run e) =
      start-IsExclusive boot db st opened u b run e
  Reachable-IsExclusive _ (steps st st' before step) =
      Step-IsExclusive st st' step (Reachable-IsExclusive st before)

  -- In every state that requests alone bring the daemon to, from a start on tables whose ids are
  -- apart, as long as the reaper ends no session: where SQLite ran the UPDATE of all sessions at
  -- the start and runs the UPDATE of a session in each request, whatever else fails in them, the
  -- leases are exclusive. No two sessions that are not revoked have the same address, and the
  -- address of each is an address of the pool whose bit is set.
  pub leases_stay_exclusive :
      (st : Server K)
      → Reachable ext cfg st
      → ((ip : Bytes) → holders ip st.db.sessions ≤ 1)
        × ((ip : Bytes) → 0 < holders ip st.db.sessions → Backed ext.net st.pool ip)
  leases_stay_exclusive st reached = let x = Reachable-IsExclusive st reached in (x.once, x.backed)
