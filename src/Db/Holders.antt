-- ===== src/Db/Holders.antt =====
-- How many sessions that are not revoked hold an address.
use wg_auth.Base.{
  ℕ, ◌+◌, ◌≡◌, refl, subst, ap, ◌≢◌, inl, inr, Bool, ◌&&◌, List, [], ◌∷◌, ◌++◌, Bytes, arith, ◌==◌,
  if◌then◌else◌, str_eq,
}
use wg_auth.Db.{Session, count, update_id, set_revoked, set_expiry, revoke_active}
use wg_auth.Db.Rows.{Has, UniqueIds, All-Has, update_id_absent}

abbrev pub holds : Bytes → Session → Bool
holds ip s = s.revoked == 0 && str_eq s.allowed_ip ip

unfoldable pub holders : Bytes → List Session → ℕ
unfolding count
holders ip = count (holds ip)

pub holders-append :
    (ip : Bytes) (ss : List Session) (s : Session)
    → holders ip (ss ++ s ∷ []) ≡ holders ip ss + (if holds ip s then 1 else 0)
unfolding holders
holders-append ip [] s = omega arith
holders-append ip (x ∷ rest) s = omega (arith, holders-append ip rest s)

-- A new expiry changes no address and revokes nothing.
pub holders-set_expiry :
    (ip : Bytes) (t id : ℕ) (ss : List Session)
    → holders ip (update_id (set_expiry t) id ss) ≡ holders ip ss
unfolding holders update_id
holders-set_expiry ip t id [] = refl
holders-set_expiry ip t id (x ∷ rest) = ground (arith, holders-set_expiry ip t id rest)

-- Revoking one row takes it from those that are not revoked and pass a test, and no other row.
pub count-set_revoked :
    (test : Session → Bool) (s : Session) (ss : List Session)
    → UniqueIds ss
    → Has s ss
    → s.revoked ≡ 0
    → count (λ r. r.revoked == 0 && test r) (update_id set_revoked s.id ss)
        + (if test s then 1 else 0)
      ≡ count (λ r. r.revoked == 0 && test r) ss
unfolding count update_id
count-set_revoked test s [] u m h = absurd m
count-set_revoked test s (x ∷ rest) u (inl e) h =
    subst
      (λ r.
        count (λ r. r.revoked == 0 && test r) (update_id set_revoked r.id (x ∷ rest))
          + (if test r then 1 else 0)
        ≡ count (λ r. r.revoked == 0 && test r) (x ∷ rest))
      e (ground (arith, update_id_absent set_revoked x.id rest u.0, ap (λ r. r.revoked) e))
count-set_revoked test s (x ∷ rest) u (inr m) h =
    ground (arith, count-set_revoked test s rest u.1 m h, All-Has (λ r. r.id ≢ x.id) s rest u.0 m)

-- An address loses the one holder that is revoked, and no other.
pub holders-set_revoked :
    (ip : Bytes) (s : Session) (ss : List Session)
    → UniqueIds ss
    → Has s ss
    → s.revoked ≡ 0
    → holders ip (update_id set_revoked s.id ss) + (if str_eq s.allowed_ip ip then 1 else 0)
      ≡ holders ip ss
unfolding holders
holders-set_revoked ip s ss u m h = count-set_revoked (λ r. str_eq r.allowed_ip ip) s ss u m h

-- At startup nobody holds an address.
pub holders-revoke_active : (ip : Bytes) (ss : List Session) → holders ip (revoke_active ss) ≡ 0
unfolding holders revoke_active
holders-revoke_active ip [] = refl
holders-revoke_active ip (x ∷ rest) = ground (arith, holders-revoke_active ip rest)
