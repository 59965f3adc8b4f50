-- ===== src/Reaper/Passes.antt =====
-- reaper_worker: one pass after the other until stop_flag is set.
use wg_auth.Base.{
  ℕ, ◌+◌, ◌*◌, ◌≤◌, ◌≡◌, refl, inl, inr, List, [], ◌∷◌, Option-cases, arith, ◌==◌, All, length,
}
use native.Mathlib.Decide.{dec_le}
use wg_auth.Config.{ServerConfig}
use wg_auth.Db.{
  Session, runs, all_listed, count, is_expired, is_active, update_id, set_revoked,
  db_get_expired_sessions,
}
use wg_auth.External.{External, InetLaws}
use wg_auth.Leases.{IsExclusive}
use wg_auth.Reaper.Laws.{reap-IsExclusive, reap_session-sessions}
use wg_auth.Reaper.{Reaping, Pass, reap_session, reap_from, reap, reaper_worker}
use wg_auth.Server.{Server}

-- How many sessions are not revoked.
abbrev pub unrevoked : List Session → ℕ
unrevoked = count (λ s. s.revoked == 0)

unrevoked_split :
    (now : ℕ) (ss : List Session)
    → unrevoked ss ≡ count (is_expired now) ss + count (is_active now) ss
unfolding count
unrevoked_split now [] = refl
unrevoked_split now (s ∷ ss) = ground (arith, unrevoked_split now ss)

-- What has expired once has expired later.
expired_later :
    (now later : ℕ) (ss : List Session)
    → now ≤ later
    → count (is_expired now) ss ≤ count (is_expired later) ss
unfolding count
expired_later now later [] h = omega arith
expired_later now later (s ∷ ss) h = ground (arith, expired_later now later ss h)

expired-set_revoked :
    (now id : ℕ) (ss : List Session)
    → count (is_expired now) (update_id set_revoked id ss) ≤ count (is_expired now) ss
unfolding count update_id
expired-set_revoked now id [] = omega arith
expired-set_revoked now id (s ∷ ss) = ground (arith, expired-set_revoked now id ss)

le_trans : {k n : ℕ} → (m : ℕ) → k ≤ m → m ≤ n → k ≤ n
le_trans m a b = omega arith

module _ {K : Type 0} (ext : External K) (laws : InetLaws ext.net) (cfg : ServerConfig) where
  -- No session expires in a pass.
  reap_from-expired :
      (now : ℕ) (each : ℕ → Reaping) (i : ℕ) (copies : List Session) (st : Server K)
      → ((k : ℕ) → (each k).update_run ≡ runs)
      → count (is_expired now) (reap_from ext cfg each i copies st).db.sessions
        ≤ count (is_expired now) st.db.sessions
  unfolding reap_from
  reap_from-expired now each i [] st run = omega arith
  reap_from-expired now each i (s ∷ copies) st run =
      let one = (reap_session-sessions ext laws cfg (each i) s st (run i)).0 in
      let rest =
        reap_from-expired now each (i + 1) copies (reap_session ext cfg (each i) s st) run in
      le_trans (count (is_expired now) (reap_session ext cfg (each i) s st).db.sessions) rest
        (rw one (expired-set_revoked now s.id st.db.sessions))

  reap-expired :
      (now : ℕ) (pass : Pass) (st : Server K)
      → ((k : ℕ) → (pass.reaping k).update_run ≡ runs)
      → count (is_expired now) (reap ext cfg pass st).db.sessions
        ≤ count (is_expired now) st.db.sessions
  unfolding reap
  reap-expired now pass st run =
      elim (Option-cases (db_get_expired_sessions pass.list_run pass.list_time st.db)) [
        | inl failed ↦ rw (reap, failed) (omega arith)
        | inr (copies, listed) ↦
            rw (reap, listed) (reap_from-expired now pass.reaping 0 copies st run)
      ]

  -- SQLite runs the statements of the pass, which comes no earlier than `now`.
  abbrev pub IsDone : ℕ → Pass → Type 0
  IsDone now pass =
      (pass.list_run ≡ all_listed)
      × ((k : ℕ) → (pass.reaping k).update_run ≡ runs)
      × (now ≤ pass.list_time)

  reaper_worker-expired :
      (now : ℕ) (passes : List Pass) (st : Server K)
      → All (IsDone now) passes
      → count (is_expired now) (reaper_worker ext cfg passes st).db.sessions
        ≤ count (is_expired now) st.db.sessions
  unfolding reaper_worker
  reaper_worker-expired now [] st h = omega arith
  reaper_worker-expired now (pass ∷ passes) st h = omega (
    arith,
    reaper_worker-expired now passes (reap ext cfg pass st) h.1,
    reap-expired now pass st h.0.1,
  )

  -- Where no request comes in and SQLite runs the statements, the reaper ends every session that
  -- has expired by some time in its passes from then on, as soon as it has made one for each
  -- hundred sessions that are not revoked.
  pub reaper_worker_ends_expired :
      (now : ℕ) (passes : List Pass) (st : Server K)
      → IsExclusive ext.net st.pool st.db
      → All (IsDone now) passes
      → unrevoked st.db.sessions ≤ 100 * length passes
      → count (is_expired now) (reaper_worker ext cfg passes st).db.sessions ≡ 0
  unfolding reaper_worker
  reaper_worker_ends_expired now [] st x h few = omega (arith, unrevoked_split now st.db.sessions)
  reaper_worker_ends_expired now (pass ∷ passes) st x h few =
      let st' = reap ext cfg pass st in
      let t = pass.list_time in
      let (x', fewer, same) = reap-IsExclusive ext laws cfg pass st h.0.0 h.0.1 x in
      elim (dec_le (count (is_expired t) st.db.sessions) 100) [
        | yes all ↦
            let none_left : count (is_expired now) st'.db.sessions ≡ 0 =
              omega (arith, expired_later now t st'.db.sessions h.0.2) in
            omega (arith, reaper_worker-expired now passes st' h.1)
        | no more ↦
            reaper_worker_ends_expired now passes st' x' h.1
              (omega (arith, unrevoked_split t st.db.sessions, unrevoked_split t st'.db.sessions))
      ]
