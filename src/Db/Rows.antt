-- ===== src/Db/Rows.antt =====
-- The rows of the sessions table: their ids, and what an UPDATE leaves alone.
use wg_auth.Base.{
  ℕ, ◌+◌, ◌<◌, ◌≡◌, refl, sym, subst, ap, ◌≢◌, ◌⊎◌, inl, inr, List, [], ◌∷◌, ◌++◌, some, Bytes,
  Bool-cases, Option-cases, success, failure, arith, ◌==◌, if◌then◌else◌, str_eq, All, All-append,
}
use wg_auth.Db.{
  Db, Run, prepare_error, step_error, runs, Session, session_with, update_id, new_session,
  db_create_session, db_log_audit, revoke_active, set_revoked,
}

-- The row is one of the table's.
abbrev pub Has : Session → List Session → Type 0
Has s [] = ⊥
Has s (x ∷ rest) = (x ≡ s) ⊎ Has s rest

abbrev pub UniqueIds : List Session → Type 0
UniqueIds [] = Unit {0}
UniqueIds (s ∷ rest) = All (λ u. u.id ≢ s.id) rest × UniqueIds rest

-- Every id has been given out: it lies below the next one.
abbrev pub IdsBelow : ℕ → List Session → Type 0
IdsBelow n = All (λ s. s.id < n)

pub session_with-Has :
    (token : Bytes) (ss : List Session) (s : Session) → session_with token ss ≡ some s → Has s ss
unfolding session_with
session_with-Has token [] s e = cc
session_with-Has token (x ∷ rest) s e = elim (Bool-cases (str_eq x.session_token token)) [
  | inl hit ↦ inl (cc (rw (hit, session_with) at e))
  | inr miss ↦ inr (session_with-Has token rest s (rw (miss, session_with) at e))
]

pub All-Has {ℓ} :
    (P : Session → Type ℓ) (s : Session) (ss : List Session) → All P ss → Has s ss → P s
All-Has P s [] h m = absurd m
All-Has P s (x ∷ rest) h (inl e) = subst P e h.0
All-Has P s (x ∷ rest) h (inr m) = All-Has P s rest h.1 m

-- No row has the id: nothing is updated.
pub update_id_absent :
    (f : Session → Session) (id : ℕ) (ss : List Session)
    → All (λ u. u.id ≢ id) ss
    → update_id f id ss ≡ ss
unfolding update_id
update_id_absent f id [] h = refl
update_id_absent f id (x ∷ rest) h = ground (arith, update_id_absent f id rest h.1)

module _ (f : Session → Session) (same_id : (s : Session) → (f s).id ≡ s.id) (id : ℕ) where
  All-update_id {ℓ} :
      (P : ℕ → Type ℓ) (ss : List Session)
      → All (λ u. P u.id) ss
      → All (λ u. P u.id) (update_id f id ss)
  unfolding update_id
  All-update_id P [] h = tt
  All-update_id P (x ∷ rest) h = elim (Bool-cases (x.id == id)) [
    | inl hit ↦ rw (hit, update_id) (subst P (sym (same_id x)) h.0, All-update_id P rest h.1)
    | inr miss ↦ rw (miss, update_id) (h.0, All-update_id P rest h.1)
  ]

  head_id : (x : Session) → (if x.id == id then f x else x).id ≡ x.id
  head_id x = ground (arith, same_id x)

  pub update_id-UniqueIds : (ss : List Session) → UniqueIds ss → UniqueIds (update_id f id ss)
  unfolding update_id
  update_id-UniqueIds [] h = tt
  update_id-UniqueIds (x ∷ rest) h =
      (rw (head_id x) (All-update_id (λ n. n ≢ x.id) rest h.0), update_id-UniqueIds rest h.1)

  pub update_id-IdsBelow :
      (n : ℕ) (ss : List Session) → IdsBelow n ss → IdsBelow n (update_id f id ss)
  update_id-IdsBelow n = All-update_id (λ k. k < n)

  -- A row with another id is still there.
  pub update_id-Has :
      (s : Session) (ss : List Session) → s.id ≢ id → Has s ss → Has s (update_id f id ss)
  unfolding update_id
  update_id-Has s [] n m = m
  update_id-Has s (x ∷ rest) n (inl e) = inl (ground (arith, ap (λ r. r.id) e))
  update_id-Has s (x ∷ rest) n (inr m) = inr (update_id-Has s rest n m)

All-ne : (n : ℕ) (ss : List Session) → IdsBelow n ss → All (λ u. n ≢ u.id) ss
All-ne n [] h = tt
All-ne n (x ∷ rest) h = (omega arith, All-ne n rest h.1)

-- A row with the next id keeps the ids apart.
pub append-UniqueIds :
    (ss : List Session) (s : Session) → IdsBelow s.id ss → UniqueIds ss → UniqueIds (ss ++ s ∷ [])
append-UniqueIds [] s b u = (tt, tt)
append-UniqueIds (x ∷ rest) s b u =
    (All-append _ rest (s ∷ []) u.0 (omega arith, tt), append-UniqueIds rest s b.1 u.1)

pub IdsBelow-mono : (m n : ℕ) (ss : List Session) → m < n → IdsBelow m ss → IdsBelow n ss
IdsBelow-mono m n [] h b = tt
IdsBelow-mono m n (x ∷ rest) h b = (omega arith, IdsBelow-mono m n rest h b.1)

-- db_create_session inserts a row with the next id, or fails and changes nothing.
pub db_create_session_cases :
    (run : Run) (now account : ℕ) (pubkey ip token : Bytes) (expires_at : ℕ) (db : Db)
    → (db_create_session run now account pubkey ip token expires_at db ≡ (db, failure))
      ⊎ (db_create_session run now account pubkey ip token expires_at db ≡ (
        record db {
          sessions =
              db.sessions
              ++ new_session db.next_session now account pubkey ip token expires_at ∷ [];
          next_session = db.next_session + 1;
        },
        success,
      ))
unfolding db_create_session
db_create_session_cases prepare_error now account pubkey ip token expires_at db = inl refl
db_create_session_cases step_error now account pubkey ip token expires_at db = inl refl
db_create_session_cases runs now account pubkey ip token expires_at db =
    elim (Option-cases (session_with token db.sessions)) [
      | inl new ↦ inr (rw (new, db_create_session))
      | inr (s, taken) ↦ inl (rw (taken, db_create_session))
    ]

-- An audit row leaves the sessions alone.
pub db_log_audit-sessions :
    (run : Run) (now account : ℕ) (action detail : Bytes) (db : Db)
    → ((db_log_audit run now account action detail db).0.sessions ≡ db.sessions)
      × ((db_log_audit run now account action detail db).0.next_session ≡ db.next_session)
unfolding db_log_audit
db_log_audit-sessions prepare_error now account action detail db = (refl, refl)
db_log_audit-sessions step_error now account action detail db = (refl, refl)
db_log_audit-sessions runs now account action detail db = (refl, refl)

-- Revoking every active session changes no id.
revoked_id : (x : Session) → (if x.revoked == 0 then set_revoked x else x).id ≡ x.id
revoked_id x = ground arith

module _ {ℓ} (P : ℕ → Type ℓ) where
  All-revoke_active :
      (ss : List Session) → All (λ u. P u.id) ss → All (λ u. P u.id) (revoke_active ss)
  unfolding revoke_active
  All-revoke_active [] h = tt
  All-revoke_active (x ∷ rest) h = (subst P (sym (revoked_id x)) h.0, All-revoke_active rest h.1)

pub revoke_active-UniqueIds : (ss : List Session) → UniqueIds ss → UniqueIds (revoke_active ss)
unfolding revoke_active
revoke_active-UniqueIds [] u = tt
revoke_active-UniqueIds (x ∷ rest) u = (
  rw (revoked_id x) (All-revoke_active (λ n. n ≢ x.id) rest u.0),
  revoke_active-UniqueIds rest u.1,
)

pub revoke_active-IdsBelow :
    (n : ℕ) (ss : List Session) → IdsBelow n ss → IdsBelow n (revoke_active ss)
revoke_active-IdsBelow n = All-revoke_active (λ k. k < n)
