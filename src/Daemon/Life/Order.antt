-- ===== src/Daemon/Life/Order.antt =====
-- The order of the shutdown: what is there while a thread may act, and what is left at the end.
use wg_auth.Base.{
  Option, none, some, Bytes, ℕ, ◌≡◌, ◌≢◌, ◌⊎◌, inl, inr, refl, sym, ◌∙◌, subst, Bool, true, false,
  none, [],
}
use wg_auth.Config.{ServerConfig}
use wg_auth.Daemon.Life.{
  Main, watching, joining, stopping, closing, destroying, finished, Life, Actor, nobody, api,
  reaper, actor, MayAct, Lives, acts, looks, begins, lists_nothing, interrupted, leaves, quits,
  joins, stops, closes, destroys, Lived, started, lives,
}
use wg_auth.Daemon.Safety.{start-IsExclusive}
use wg_auth.Daemon.Threads.{
  HandlerCall, checks, records, allocates, frees, adds_peer, drops_peer, inserts, ends, extends,
  audits, System, Move, ticks, calls, lists, removes, releases, revokes, logs, sleeps,
}
use wg_auth.External.{External, Inet, InetLaws}
use wg_auth.IpPool.Allocation.{Allocated, ip_pool_allocate-Allocated, Same-IsReady}
use wg_auth.Server.{Server}
use wg_auth.IpPool.Return.{ip_pool_release-IsReady}
use wg_auth.IpPool.Shape.{IsReady}
use wg_auth.IpPool.{Pool, ip_pool_destroy}

-- Which threads run and whether the tables are open, at each place of main.
abbrev Stands : Main → Bool → Bool → Bool → Type 0
Stands watching reaper_runs api_runs db_open = (api_runs ≡ true) × (db_open ≡ true)
Stands joining reaper_runs api_runs db_open = (api_runs ≡ true) × (db_open ≡ true)
Stands stopping reaper_runs api_runs db_open =
    (reaper_runs ≡ false) × (api_runs ≡ true) × (db_open ≡ true)
Stands closing reaper_runs api_runs db_open =
    (reaper_runs ≡ false) × (api_runs ≡ false) × (db_open ≡ true)
Stands destroying reaper_runs api_runs db_open =
    (reaper_runs ≡ false) × (api_runs ≡ false) × (db_open ≡ false)
Stands finished reaper_runs api_runs db_open =
    (reaper_runs ≡ false) × (api_runs ≡ false) × (db_open ≡ false)

-- An allocation keeps the shape of the pool.
Allocated-IsReady :
    (net : Inet) (size : ℕ) (p : Pool) (r : Pool × Option Bytes)
    → Allocated net size p r
    → IsReady p
    → IsReady r.0
Allocated-IsReady net size p (q, none) (g, full) w = Same-IsReady p q w g.same
Allocated-IsReady net size p (q, some ip) (j, at, lo, hi, g, first) w = Same-IsReady p q w g.same

-- While a thread runs, main stands before the closing of the tables.
Stands-open :
    (m : Main) (reaper_runs api_runs db_open : Bool)
    → (reaper_runs ≡ true) ⊎ (api_runs ≡ true)
    → Stands m reaper_runs api_runs db_open
    → (db_open ≡ true) × (m ≢ finished)
Stands-open watching r a d h s = (s.1, λ e. cc)
Stands-open joining r a d h s = (s.1, λ e. cc)
Stands-open stopping r a d h s = (s.2, λ e. cc)
Stands-open closing r a d h s = (s.2, λ e. cc)
Stands-open destroying r a d (inl h) s = cc
Stands-open destroying r a d (inr h) s = cc
Stands-open finished r a d (inl h) s = cc
Stands-open finished r a d (inr h) s = cc

-- The end of the reaper's thread changes nothing else.
Stands-quits :
    (m : Main) (reaper_runs api_runs db_open : Bool)
    → Stands m reaper_runs api_runs db_open
    → Stands m false api_runs db_open
Stands-quits watching r a d s = s
Stands-quits joining r a d s = s
Stands-quits stopping r a d s = (refl, s.1, s.2)
Stands-quits closing r a d s = (refl, s.1, s.2)
Stands-quits destroying r a d s = (refl, s.1, s.2)
Stands-quits finished r a d s = (refl, s.1, s.2)

record IsOrdered {K : Type 0} (l : Life K) : Type 0 where
  stands : Stands l.main l.reaper_runs l.api_runs l.db_open
  pooled : l.main ≢ finished → IsReady l.system.server.pool
  emptied : l.main ≡ finished → l.system.server.pool.bitmap ≡ []
  forgotten : l.api_runs ≡ false → (l.tls_key_pem ≡ none) × (l.tls_cert_pem ≡ none)

-- The place of main, once it is known.
place_known :
    {K : Type 0} (l : Life K) (m : Main)
    → l.main ≡ m
    → IsOrdered l
    → Stands m l.reaper_runs l.api_runs l.db_open
place_known l m e x = subst (λ n. Stands n l.reaper_runs l.api_runs l.db_open) e x.stands

pooled_at :
    {K : Type 0} (l : Life K) (m : Main)
    → l.main ≡ m
    → m ≢ finished
    → IsOrdered l
    → IsReady l.system.server.pool
pooled_at l m e n x = x.pooled (λ f. n (sym e ∙ f))

nobody_or_not : (a : Actor) → (a ≡ nobody) ⊎ (a ≢ nobody)
nobody_or_not nobody = inl refl
nobody_or_not api = inr (λ e. cc)
nobody_or_not reaper = inr (λ e. cc)

module _ {K : Type 0} (ext : External K) (laws : InetLaws ext.net) (cfg : ServerConfig) where
  HandlerCall-IsReady : (s t : Server K) → HandlerCall ext cfg s t → IsReady s.pool → IsReady t.pool
  HandlerCall-IsReady _ _ (checks now ip st) w = w
  HandlerCall-IsReady _ _ (records now ip st) w = w
  HandlerCall-IsReady _ _ (allocates size st) w =
      Allocated-IsReady ext.net size st.pool _ (ip_pool_allocate-Allocated ext.net size st.pool w) w
  HandlerCall-IsReady _ _ (frees ip st) w = ip_pool_release-IsReady ext.net laws ip st.pool w
  HandlerCall-IsReady _ _ (adds_peer key ip psk st) w = w
  HandlerCall-IsReady _ _ (drops_peer key st) w = w
  HandlerCall-IsReady _ _ (inserts run now account pubkey ip token expires_at st) w = w
  HandlerCall-IsReady _ _ (ends run id st) w = w
  HandlerCall-IsReady _ _ (extends run id expires_at st) w = w
  HandlerCall-IsReady _ _ (audits run now account action detail st) w = w

  Move-IsReady : (s t : System K) → Move ext cfg s t → IsReady s.server.pool → IsReady t.server.pool
  Move-IsReady _ _ (ticks st clock now pc c) w = w
  Move-IsReady _ _ (calls st t clock pc c) w = HandlerCall-IsReady st t c w
  Move-IsReady _ _ (lists run now copies st clock c listed) w = w
  Move-IsReady _ _ (removes stack sess rest st clock) w = w
  Move-IsReady _ _ (releases sess rest st clock) w =
      ip_pool_release-IsReady ext.net laws sess.allowed_ip st.pool w
  Move-IsReady _ _ (revokes run sess rest st clock) w = w
  Move-IsReady _ _ (logs run now sess rest st clock) w = w
  Move-IsReady _ _ (sleeps st clock) w = w

  -- The clock ticks, and the server is as it was.
  nobody_changes :
      (s t : System K) (move : Move ext cfg s t) → actor ext cfg move ≡ nobody → t.server ≡ s.server
  nobody_changes _ _ (ticks st clock now pc c) e = refl
  nobody_changes _ _ (calls st t clock pc c) e = cc
  nobody_changes _ _ (lists run now copies st clock c listed) e = cc
  nobody_changes _ _ (removes stack sess rest st clock) e = cc
  nobody_changes _ _ (releases sess rest st clock) e = cc
  nobody_changes _ _ (revokes run sess rest st clock) e = cc
  nobody_changes _ _ (logs run now sess rest st clock) e = cc
  nobody_changes _ _ (sleeps st clock) e = cc

  thread_may :
      (a : Actor) (l : Life K)
      → a ≢ nobody
      → MayAct ext cfg a l
      → (l.reaper_runs ≡ true) ⊎ (l.api_runs ≡ true)
  thread_may nobody l n may = absurd (n refl)
  thread_may api l n may = inr may
  thread_may reaper l n may = inl may

  Lives-IsOrdered : (l m : Life K) → Lives ext cfg l m → IsOrdered l → IsOrdered m
  unfolding ip_pool_destroy
  Lives-IsOrdered l _ (acts _ t move may same_pass) x = elim (nobody_or_not (actor ext cfg move)) [
    | inl none_acts ↦
        let same = nobody_changes l.system t move none_acts in
        record {
          stands = x.stands;
          pooled = λ n. rw same (x.pooled n);
          emptied = λ f. rw same (x.emptied f);
          forgotten = x.forgotten;
        }
    | inr thread ↦
        let (opened, going) =
          Stands-open l.main l.reaper_runs l.api_runs l.db_open
            (thread_may (actor ext cfg move) l thread may) x.stands in
        record {
          stands = x.stands;
          pooled = λ n. Move-IsReady l.system t move (x.pooled n);
          emptied = λ f. absurd (going f);
          forgotten = x.forgotten;
        }
  ]
  Lives-IsOrdered l _ (looks _ up flag asleep) x = record {
    stands = x.stands;
    pooled = x.pooled;
    emptied = x.emptied;
    forgotten = x.forgotten;
  }
  Lives-IsOrdered l _ (begins _ t move up pass checked) x =
      let (opened, going) =
        Stands-open l.main l.reaper_runs l.api_runs l.db_open (inl up) x.stands in
      record {
        stands = x.stands;
        pooled = λ n. Move-IsReady l.system t move (x.pooled n);
        emptied = λ f. absurd (going f);
        forgotten = x.forgotten;
      }
  Lives-IsOrdered l _ (lists_nothing _ up checked) x = record {
    stands = x.stands;
    pooled = x.pooled;
    emptied = x.emptied;
    forgotten = x.forgotten;
  }
  Lives-IsOrdered l _ (interrupted _) x = record {
    stands = x.stands;
    pooled = x.pooled;
    emptied = x.emptied;
    forgotten = x.forgotten;
  }
  Lives-IsOrdered l _ (leaves _ e off) x =
      let s = place_known l watching e x in
      record {
        stands = s;
        pooled = λ n. pooled_at l watching e (λ f. cc) x;
        emptied = λ f. cc;
        forgotten = x.forgotten;
      }
  Lives-IsOrdered l _ (quits _ runs flag unchecked asleep) x = record {
    stands = Stands-quits l.main l.reaper_runs l.api_runs l.db_open x.stands;
    pooled = x.pooled;
    emptied = x.emptied;
    forgotten = x.forgotten;
  }
  Lives-IsOrdered l _ (joins _ e over) x =
      let s = place_known l joining e x in
      record {
        stands = (over, s.0, s.1);
        pooled = λ n. pooled_at l joining e (λ f. cc) x;
        emptied = λ f. cc;
        forgotten = x.forgotten;
      }
  Lives-IsOrdered l _ (stops _ e) x =
      let s = place_known l stopping e x in
      record {
        stands = (s.0, refl, s.2);
        pooled = λ n. pooled_at l stopping e (λ f. cc) x;
        emptied = λ f. cc;
        forgotten = λ f. (refl, refl);
      }
  Lives-IsOrdered l _ (closes _ e) x =
      let s = place_known l closing e x in
      record {
        stands = (s.0, s.1, refl);
        pooled = λ n. pooled_at l closing e (λ f. cc) x;
        emptied = λ f. cc;
        forgotten = x.forgotten;
      }
  Lives-IsOrdered l _ (destroys _ e) x = record {
    stands = place_known l destroying e x;
    pooled = λ n. absurd (n refl);
    emptied = λ f. refl;
    forgotten = x.forgotten;
  }

  Lived-IsOrdered : (l : Life K) → Lived ext cfg l → IsOrdered l
  Lived-IsOrdered _ (started boot db st clock key cert opened u b run e) = record {
    stands = (refl, refl);
    pooled = λ n. (start-IsExclusive ext laws cfg boot db st opened u b run e).ready;
    emptied = λ f. cc;
    forgotten = λ f. cc;
  }
  Lived-IsOrdered _ (lives l m before step) = Lives-IsOrdered l m step (Lived-IsOrdered l before)

  -- From the end of a start on tables whose ids are apart, whatever the threads do and whenever the
  -- signal comes, with the calls of the two in any order: as long as the reaper or the API may
  -- act, the tables are open and the pool is well formed, with its bitmap; and when main has come
  -- to its end, neither thread runs, the tables are closed, and the bitmap, the private key and the
  -- certificate are freed.
  pub threads_outlived :
      (l : Life K)
      → Lived ext cfg l
      → ((a : Actor)
          → a ≢ nobody
          → MayAct ext cfg a l
          → (l.db_open ≡ true) × IsReady l.system.server.pool)
        × (l.main ≡ finished
            → (l.reaper_runs ≡ false)
              × (l.api_runs ≡ false)
              × (l.db_open ≡ false)
              × (l.system.server.pool.bitmap ≡ [])
              × (l.tls_key_pem ≡ none)
              × (l.tls_cert_pem ≡ none))
  threads_outlived l lived =
      let x = Lived-IsOrdered l lived in
      (
        λ a n may.
            let (opened, going) =
              Stands-open l.main l.reaper_runs l.api_runs l.db_open (thread_may a l n may)
                x.stands in
            (opened, x.pooled going),
        λ e.
            let s = place_known l finished e x in
            let (no_key, no_cert) = x.forgotten s.1 in
            (s.0, s.1, s.2, x.emptied e, no_key, no_cert),
      )
