-- ===== src/Leases/Steps.antt =====
-- What the steps of the handlers do to the leases: a failed or granted allocation, the insertion of
-- a session, and the end of one.
use native.Mathlib.Decide.{dec_lt}
use wg_auth.Base.{
  ℕ, ◌+◌, ◌^◌, ◌<◌, ◌≤◌, ◌≡◌, refl, sym, ap, ◌∙◌, ◌≢◌, inl, inr, true, false, [], ◌∷◌, ◌++◌, Bytes,
  Bool-cases, arith, if◌then◌else◌, str_eq, str_eq_iff, str_eq_refl, All-append, strncpy, before,
  take_all, length,
}
use wg_auth.Db.Holders.{holders, holders-append, holders-set_revoked, holders-set_expiry, holds}
use wg_auth.Db.Rows.{
  Has, UniqueIds, IdsBelow, append-UniqueIds, IdsBelow-mono, update_id-UniqueIds,
  update_id-IdsBelow,
}
use wg_auth.Db.{
  Db, Run, prepare_error, step_error, runs, db_update_session_expiry, Session, update_id,
  set_revoked, set_expiry,
}
use wg_auth.External.{Inet, InetLaws}
use wg_auth.IpPool.Allocation.{Same, Same-IsReady, Grants}
use wg_auth.IpPool.Bitmap.{is_used}
use wg_auth.IpPool.Return.{Sets, pton-address_text, length-address_text, ip_pool_release-Sets}
use wg_auth.IpPool.Shape.{IsReady}
use wg_auth.IpPool.{Pool, address_text, ip_pool_release}
use wg_auth.Leases.{Backed, IsExclusive}

module _ (net : Inet) (laws : InetLaws net) where
  address_lt : (p : Pool) (j : ℕ) → IsReady p → j < p.num_ips → p.pool_start + j < 2 ^ 32
  address_lt p j w h = omega (arith, w.spans, w.end_lt)

  -- Two indices of the pool have different texts.
  index_unique :
      (p : Pool) (i j : ℕ)
      → IsReady p
      → i < p.num_ips
      → j < p.num_ips
      → address_text net 32 (p.pool_start + i) ≡ address_text net 32 (p.pool_start + j)
      → i ≡ j
  index_unique p i j w hi hj e =
      let a = pton-address_text net laws (p.pool_start + i) (address_lt p i w hi) in
      let b = pton-address_text net laws (p.pool_start + j) (address_lt p j w hj) in
      ground (arith, a, b, ap (λ t. net.pton (before b'/' (strncpy 64 t))) e)

  -- A free bit has no holder.
  pub holders_free :
      (p : Pool) (db : Db) (j : ℕ)
      → IsExclusive net p db
      → j < p.num_ips
      → is_used p.bitmap j ≡ false
      → holders (address_text net 32 (p.pool_start + j)) db.sessions ≡ 0
  holders_free p db j x h free =
      elim (dec_lt 0 (holders (address_text net 32 (p.pool_start + j)) db.sessions)) [
        | no n ↦ omega arith
        | yes held ↦
            let (i, e, lo, hi, used) = x.backed _ held in
            let same = index_unique p j i x.ready h (omega arith) e in cc (free, same, used)
      ]

  Backed-Same :
      (p q : Pool) (ip : Bytes)
      → Same p q
      → ((k : ℕ) → is_used p.bitmap k ≡ true → is_used q.bitmap k ≡ true)
      → Backed net p ip
      → Backed net q ip
  Backed-Same p q ip s kept (j, e, lo, hi, used) = (j, rw s.starts e, lo, rw s.nums hi, kept j used)

  -- The pool may gain marks.
  pub gain-IsExclusive :
      (p q : Pool) (db : Db)
      → Same p q
      → ((k : ℕ) → is_used p.bitmap k ≡ true → is_used q.bitmap k ≡ true)
      → IsExclusive net p db
      → IsExclusive net q db
  gain-IsExclusive p q db s kept x = record {
    ready = Same-IsReady p q x.ready s;
    unique = x.unique;
    below = x.below;
    once = x.once;
    backed = λ ip h. Backed-Same p q ip s kept (x.backed ip h);
  }

  -- An address that no session holds any more may be freed.
  pub free-IsExclusive :
      (p q : Pool) (db db' : Db) (j : ℕ)
      → Sets false j p q
      → IsExclusive net p db
      → UniqueIds db'.sessions
      → IdsBelow db'.next_session db'.sessions
      → ((ip : Bytes) → holders ip db'.sessions ≤ holders ip db.sessions)
      → holders (address_text net 32 (p.pool_start + j)) db'.sessions ≡ 0
      → IsExclusive net q db'
  free-IsExclusive p q db db' j s x unique below fewer none_left = record {
    ready = Same-IsReady p q x.ready s.same;
    unique = unique;
    below = below;
    once = λ ip. omega (arith, x.once ip, fewer ip);
    backed = λ ip h.
        let (k, e, lo, hi, used) = x.backed ip (omega (arith, fewer ip)) in
        let apart : j ≢ k = λ same. absurd (still_held ip k e h same) in
        (k, rw s.same.starts e, lo, rw s.same.nums hi, s.bits k ∙ ground (arith, apart));
  }
    where
      still_held :
          (ip : Bytes) (k : ℕ)
          → ip ≡ address_text net 32 (p.pool_start + k)
          → 0 < holders ip db'.sessions
          → j ≡ k
          → ⊥
      still_held ip k e h same =
          let gone : holders ip db'.sessions ≡ 0 = rw (e, ← same) none_left in omega arith

  -- An allocation that is given back leaves the leases as they were.
  pub undo-IsExclusive :
      (p q : Pool) (db : Db) (j : ℕ)
      → Grants p q j
      → j < p.num_ips
      → IsExclusive net p db
      → IsExclusive net (ip_pool_release net (address_text net 32 (p.pool_start + j)) q).0 db
  undo-IsExclusive p q db j g h x =
      let xq = gain-IsExclusive p q db g.same g.kept x in
      let back = ip_pool_release-Sets net laws q xq.ready j (rw g.same.nums h) in
      rw (← g.same.starts) (
        free-IsExclusive q _ db db j back.1 xq x.unique x.below (λ ip. omega arith)
          (rw g.same.starts (holders_free p db j x h (ground (arith, g.free)))))

  -- A session with the next id may be added on an address that was just granted.
  pub insert-IsExclusive :
      (p q : Pool) (db db' : Db) (j : ℕ) (s : Session)
      → Grants p q j
      → 0 < j
      → j + 1 < p.num_ips
      → s.id ≡ db.next_session
      → s.revoked ≡ 0
      → s.allowed_ip ≡ address_text net 32 (p.pool_start + j)
      → db'.sessions ≡ db.sessions ++ s ∷ []
      → db'.next_session ≡ db.next_session + 1
      → IsExclusive net p db
      → IsExclusive net q db'
  insert-IsExclusive p q db db' j s g lo hi id live ip added next x = record {
    ready = Same-IsReady p q x.ready g.same;
    unique = rw added (append-UniqueIds db.sessions s (rw id x.below) x.unique);
    below =
        rw (added, next)
          (All-append _ db.sessions (s ∷ [])
            (IdsBelow-mono db.next_session (db.next_session + 1) db.sessions (omega arith) x.below)
            (omega arith, tt));
    once = λ t. elim (Bool-cases (str_eq s.allowed_ip t)) [
      | inl hit ↦ ground (arith, total t, none_held t hit)
      | inr miss ↦ ground (arith, total t, x.once t)
    ];
    backed = λ t h. elim (Bool-cases (str_eq s.allowed_ip t)) [
      | inl hit ↦ (
        j,
        sym ((str_eq_iff s.allowed_ip t).0 hit)
            ∙ ip
            ∙ ap (λ n. address_text net 32 (n + j)) (sym g.same.starts),
        lo,
        rw g.same.nums hi,
        g.marked,
      )
      | inr miss ↦ Backed-Same p q t g.same g.kept (x.backed t (ground (arith, total t)))
    ];
  }
    where
      total :
          (t : Bytes)
          → holders t db'.sessions ≡ holders t db.sessions + (if holds t s then 1 else 0)
      total t = rw added (holders-append t db.sessions s)

      none_held : (t : Bytes) → str_eq s.allowed_ip t ≡ true → holders t db.sessions ≡ 0
      none_held t hit =
          rw (← (str_eq_iff s.allowed_ip t).0 hit, ip)
            (holders_free p db j x (omega arith) (ground (arith, g.free)))

  -- A session that is not revoked ends: its address is freed and its row revoked.
  pub end-IsExclusive :
      (p : Pool) (db db' : Db) (s : Session)
      → Has s db.sessions
      → s.revoked ≡ 0
      → db'.sessions ≡ update_id set_revoked s.id db.sessions
      → db'.next_session ≡ db.next_session
      → IsExclusive net p db
      → IsExclusive net (ip_pool_release net (strncpy 32 s.allowed_ip) p).0 db'
  end-IsExclusive p db db' s m live ended next x =
      let (j, e, lo, hi, used) = x.backed s.allowed_ip held in
      let inside : j < p.num_ips = omega arith in
      let back = ip_pool_release-Sets net laws p x.ready j inside in
      let short : length s.allowed_ip ≤ 18 =
        rw e (length-address_text net laws (p.pool_start + j) (address_lt p j x.ready inside)) in
      rw (take_all 31 s.allowed_ip (omega arith), e)
        (free-IsExclusive p _ db db' j back.1 x
          (rw ended (update_id-UniqueIds set_revoked (λ r. refl) s.id db.sessions x.unique))
          (rw (ended, next)
            (update_id-IdsBelow set_revoked (λ r. refl) s.id db.next_session db.sessions x.below))
          (λ t. omega (arith, left t)) (rw (← e) (none_left x.once)))
    where
      left :
          (t : Bytes)
          → holders t db'.sessions + (if str_eq s.allowed_ip t then 1 else 0)
            ≡ holders t db.sessions
      left t = rw ended (holders-set_revoked t s db.sessions x.unique m live)

      held : 0 < holders s.allowed_ip db.sessions
      held = ground (arith, left s.allowed_ip, str_eq_refl s.allowed_ip)

      none_left : ((t : Bytes) → holders t db.sessions ≤ 1) → holders s.allowed_ip db'.sessions ≡ 0
      none_left once =
          ground (arith, left s.allowed_ip, str_eq_refl s.allowed_ip, once s.allowed_ip)

module _ (net : Inet) where
  -- A new expiry does not touch the leases.
  pub renew-IsExclusive :
      (p : Pool) (db db' : Db) (t id : ℕ)
      → db'.sessions ≡ update_id (set_expiry t) id db.sessions
      → db'.next_session ≡ db.next_session
      → IsExclusive net p db
      → IsExclusive net p db'
  renew-IsExclusive p db db' t id extended next x = record {
    ready = x.ready;
    unique = rw extended (update_id-UniqueIds (set_expiry t) (λ r. refl) id db.sessions x.unique);
    below =
        rw (extended, next)
          (update_id-IdsBelow (set_expiry t) (λ r. refl) id db.next_session db.sessions x.below);
    once = λ ip. rw (extended, holders-set_expiry ip t id db.sessions) (x.once ip);
    backed = λ ip h. x.backed ip (rw (extended, holders-set_expiry ip t id db.sessions) at h);
  }

  -- Only the sessions matter.
  pub sessions-IsExclusive :
      (p : Pool) (db db' : Db)
      → db'.sessions ≡ db.sessions
      → db'.next_session ≡ db.next_session
      → IsExclusive net p db
      → IsExclusive net p db'
  sessions-IsExclusive p db db' same next x = record {
    ready = x.ready;
    unique = rw same x.unique;
    below = rw (same, next) x.below;
    once = λ ip. rw same (x.once ip);
    backed = λ ip h. x.backed ip (rw same at h);
  }

  pub update_expiry-IsExclusive :
      (run : Run) (id t : ℕ) (p : Pool) (db : Db)
      → IsExclusive net p db
      → IsExclusive net p (db_update_session_expiry run id t db).0
  unfolding db_update_session_expiry
  update_expiry-IsExclusive prepare_error id t p db x = x
  update_expiry-IsExclusive step_error id t p db x = x
  update_expiry-IsExclusive runs id t p db x = renew-IsExclusive p db _ t id refl refl x
