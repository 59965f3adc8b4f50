-- ===== src/Reaper/Laws.antt =====
-- A pass of the reaper: it revokes what its list holds, touches no session that is still in time,
-- and keeps the leases exclusive.
use wg_auth.Base.{
  ℕ, zero, suc, ◌+◌, ◌-◌, ◌≡◌, refl, ◌∙◌, ◌≢◌, inl, inr, Bool, true, List, [], ◌∷◌, Bool-cases,
  arith, ltb, leb, All, All-take, take, length, codes,
}
use wg_auth.Config.{ServerConfig}
use wg_auth.Db.Holders.{count-set_revoked}
use wg_auth.Db.Rows.{Has, UniqueIds, update_id-Has, db_log_audit-sessions}
use wg_auth.Db.{
  Session, runs, all_listed, is_expired, is_active, count, filter, read_all, read_short, update_id,
  set_revoked, db_revoke_session, db_get_expired_sessions,
}
use wg_auth.External.{External, InetLaws}
use wg_auth.Leases.Steps.{end-IsExclusive}
use wg_auth.Leases.{IsExclusive}
use wg_auth.Reaper.{Reaping, Pass, reap_session, reap_from, reap}
use wg_auth.Server.{Server}

-- A row of the table that is expired and not revoked.
abbrev Due : ℕ → List Session → Session → Type 0
Due now ss s = Has s ss × (is_expired now s ≡ true)

pub filter-Has :
    (test : Session → Bool) (ss : List Session)
    → All (λ s. Has s ss × (test s ≡ true)) (filter test ss)
unfolding filter
filter-Has test [] = tt
filter-Has test (x ∷ rest) = elim (Bool-cases (test x)) [
  | inl hit ↦
      rw (filter, hit) ((inl refl, hit), further rest (filter test rest) (filter-Has test rest))
  | inr miss ↦ rw (filter, miss) (further rest (filter test rest) (filter-Has test rest))
]
  where
    further :
        (rest kept : List Session)
        → All (λ s. Has s rest × (test s ≡ true)) kept
        → All (λ s. Has s (x ∷ rest) × (test s ≡ true)) kept
    further rest [] h = tt
    further rest (y ∷ kept) h = ((inr h.0.0, h.0.1), further rest kept h.1)

All-filter {ℓ} :
    (P : Session → Type ℓ) (test : Session → Bool) (ss : List Session)
    → All P ss
    → All P (filter test ss)
unfolding filter
All-filter P test [] h = tt
All-filter P test (x ∷ rest) h = elim (Bool-cases (test x)) [
  | inl hit ↦ rw (filter, hit) (h.0, All-filter P test rest h.1)
  | inr miss ↦ rw (filter, miss) (All-filter P test rest h.1)
]

pub filter-UniqueIds :
    (test : Session → Bool) (ss : List Session) → UniqueIds ss → UniqueIds (filter test ss)
unfolding filter
filter-UniqueIds test [] u = tt
filter-UniqueIds test (x ∷ rest) u = elim (Bool-cases (test x)) [
  | inl hit ↦
      rw (filter, hit) (All-filter (λ r. r.id ≢ x.id) test rest u.0, filter-UniqueIds test rest u.1)
  | inr miss ↦ rw (filter, miss) (filter-UniqueIds test rest u.1)
]

pub take-UniqueIds : (n : ℕ) (ss : List Session) → UniqueIds ss → UniqueIds (take n ss)
take-UniqueIds zero ss u = tt
take-UniqueIds (suc n) [] u = tt
take-UniqueIds (suc n) (x ∷ rest) u = (All-take _ n rest u.0, take-UniqueIds n rest u.1)

length-filter :
    (test : Session → Bool) (ss : List Session) → length (filter test ss) ≡ count test ss
unfolding filter count
length-filter test [] = refl
length-filter test (x ∷ rest) = ground (arith, length-filter test rest)

length-take : (n : ℕ) (ss : List Session) → length (take n ss) + (length ss - n) ≡ length ss
length-take zero ss = omega arith
length-take (suc n) [] = omega arith
length-take (suc n) (x ∷ rest) = omega (arith, length-take n rest)

Due-update :
    (now id : ℕ) (ss rows : List Session)
    → All (λ r. r.id ≢ id) rows
    → All (Due now ss) rows
    → All (Due now (update_id set_revoked id ss)) rows
Due-update now id ss [] apart due = tt
Due-update now id ss (r ∷ rows) apart due = (
  (update_id-Has set_revoked (λ r. refl) id r ss apart.0 due.0.0, due.0.1),
  Due-update now id ss rows apart.1 due.1,
)

module _ {K : Type 0} (ext : External K) (laws : InetLaws ext.net) (cfg : ServerConfig) where
  -- One session: its row is revoked and its address freed.
  pub reap_session-sessions :
      (calls : Reaping) (s : Session) (st : Server K)
      → calls.update_run ≡ runs
      → ((reap_session ext cfg calls s st).db.sessions ≡ update_id set_revoked s.id st.db.sessions)
        × ((reap_session ext cfg calls s st).db.next_session ≡ st.db.next_session)
  unfolding reap_session db_revoke_session
  reap_session-sessions calls s st run = rw run (
      db_log_audit-sessions calls.audit_run calls.audit_time s.account_id (codes "expired")
        s.allowed_ip (db_revoke_session runs s.id st.db).0)

  -- What a pass from one place of its list on leaves: exclusive leases, as many fewer expired
  -- sessions as the list has rows, and all the sessions in time.
  abbrev Reaped : ℕ → ℕ → Server K → Server K → Type 0
  Reaped now n st st' =
      IsExclusive ext.net st'.pool st'.db
      × (count (is_expired now) st'.db.sessions + n ≡ count (is_expired now) st.db.sessions)
      × (count (is_active now) st'.db.sessions ≡ count (is_active now) st.db.sessions)

  reap_session-Reaped :
      (now : ℕ) (calls : Reaping) (s : Session) (st : Server K)
      → calls.update_run ≡ runs
      → Due now st.db.sessions s
      → IsExclusive ext.net st.pool st.db
      → Reaped now 1 st (reap_session ext cfg calls (read_short s) st)
  unfolding reap_session
  reap_session-Reaped now calls s st run due x =
      let ended = reap_session-sessions calls (read_short s) st run in
      let expired =
        count-set_revoked (λ r. ltb r.expires_at now) s st.db.sessions x.unique due.0 live in
      let active =
        count-set_revoked (λ r. leb now r.expires_at) s st.db.sessions x.unique due.0 live in
      (
        end-IsExclusive ext.net laws st.pool st.db _ s due.0 live ended.0 ended.1 x,
        rw ended.0 (ground (arith, expired, due.1)),
        rw ended.0 (ground (arith, active, due.1)),
      )
    where
      live : s.revoked ≡ 0
      live = ground (arith, due.1)

  reap_from-Reaped :
      (now : ℕ) (reaping : ℕ → Reaping) (i : ℕ) (rows : List Session) (st : Server K)
      → ((k : ℕ) → (reaping k).update_run ≡ runs)
      → UniqueIds rows
      → All (Due now st.db.sessions) rows
      → IsExclusive ext.net st.pool st.db
      → Reaped now (length rows) st (reap_from ext cfg reaping i (read_all rows) st)
  unfolding reap_from
  reap_from-Reaped now reaping i [] st run u due x = (x, omega arith, refl)
  reap_from-Reaped now reaping i (s ∷ rows) st run u due x =
      let one = reap_session-Reaped now (reaping i) s st (run i) due.0 x in
      let ended = reap_session-sessions (reaping i) (read_short s) st (run i) in
      let rest =
        reap_from-Reaped now reaping (i + 1) rows
          (reap_session ext cfg (reaping i) (read_short s) st) run u.1
          (rw ended.0 (Due-update now s.id st.db.sessions rows u.0 due.1)) one.0 in
      (rest.0, omega (arith, rest.1, one.1), rest.2 ∙ one.2)

  -- A pass whose statements SQLite runs keeps the leases exclusive, takes from the expired sessions
  -- up to a hundred, and leaves every session that is in time.
  pub reap-IsExclusive :
      (pass : Pass) (st : Server K)
      → pass.list_run ≡ all_listed
      → ((k : ℕ) → (pass.reaping k).update_run ≡ runs)
      → IsExclusive ext.net st.pool st.db
      → IsExclusive ext.net (reap ext cfg pass st).pool (reap ext cfg pass st).db
        × (count (is_expired pass.list_time) (reap ext cfg pass st).db.sessions
            ≡ count (is_expired pass.list_time) st.db.sessions - 100)
        × (count (is_active pass.list_time) (reap ext cfg pass st).db.sessions
            ≡ count (is_active pass.list_time) st.db.sessions)
  unfolding reap db_get_expired_sessions
  reap-IsExclusive pass st run runs_each x =
      let rows = filter (is_expired pass.list_time) st.db.sessions in
      let done =
        reap_from-Reaped pass.list_time pass.reaping 0 (take 100 rows) st runs_each
          (take-UniqueIds 100 rows
            (filter-UniqueIds (is_expired pass.list_time) st.db.sessions x.unique))
          (All-take _ 100 rows (filter-Has (is_expired pass.list_time) st.db.sessions)) x in
      rw run (
        done.0,
        fewer (length (take 100 rows)) (length rows) _ _ (length-take 100 rows)
            (length-filter (is_expired pass.list_time) st.db.sessions) done.1,
        done.2,
      )
    where
      fewer :
          (taken listed before after : ℕ)
          → taken + (listed - 100) ≡ listed
          → listed ≡ before
          → after + taken ≡ before
          → after ≡ before - 100
      fewer taken listed before after t l e = omega arith
