-- ===== src/Db/Tokens.antt =====
-- Looking a session up by its token, across the statements that change the table.
use wg_auth.Base.{
  ℕ, ◌≡◌, refl, List, [], ◌∷◌, ◌++◌, none, some, Bytes, Bool-cases, inl, inr, arith, ◌==◌,
  if◌then◌else◌, str_eq, str_eq_refl, success, failure, Option-cases, ◌⊎◌,
}
use wg_auth.Db.{
  Db, Session, Run, runs, prepare_error, step_error, session_with, update_id, new_session,
  db_create_session, db_get_session_by_token, read_session,
}

-- An UPDATE that keeps the tokens: the same row is found, as the UPDATE leaves it.
pub session_with-update_id :
    (f : Session → Session) (id : ℕ) (token : Bytes) (ss : List Session)
    → ((s : Session) → (f s).session_token ≡ s.session_token)
    → session_with token (update_id f id ss)
      ≡ elim (session_with token ss) [ none ↦ none | some s ↦ some (if s.id == id then f s else s) ]
unfolding session_with update_id
session_with-update_id f id token [] same = refl
session_with-update_id f id token (x ∷ rest) same =
    elim (Bool-cases (str_eq x.session_token token)) [
      | inl hit ↦ ground (arith, same x)
      | inr miss ↦ ground (arith, same x, session_with-update_id f id token rest same)
    ]

session_with-append :
    (token : Bytes) (ss : List Session) (s : Session)
    → session_with token ss ≡ none
    → s.session_token ≡ token
    → session_with token (ss ++ s ∷ []) ≡ some s
unfolding session_with
session_with-append token [] s new same = rw same (ground (arith, str_eq_refl token))
session_with-append token (x ∷ rest) s new same = elim (Bool-cases (str_eq x.session_token token)) [
  | inl hit ↦ cc (rw (hit, session_with) at new)
  | inr miss ↦
      rw (session_with, miss)
        (session_with-append token rest s (rw (session_with, miss) at new) same)
]

-- Where db_create_session answers 0, SQLite ran the INSERT and no session had the token before;
-- from then on db_get_session_by_token finds, by that token, the session that was asked for, each
-- text cut to its buffer. Where it answers -1, it changed nothing.
pub db_create_session-db_get_session_by_token :
    (run : Run) (now account : ℕ) (pubkey ip token : Bytes) (expires_at : ℕ) (db : Db)
    → let (db', rc) = db_create_session run now account pubkey ip token expires_at db in
      ((rc ≡ failure) × (db' ≡ db))
      ⊎ ((rc ≡ success)
          × (db_get_session_by_token runs token db ≡ none)
          × (db_get_session_by_token runs token db'
              ≡ some (
                  read_session
                    (new_session db.next_session now account pubkey ip token expires_at))))
unfolding db_create_session db_get_session_by_token
db_create_session-db_get_session_by_token prepare_error now account pubkey ip token expires_at db =
    inl (refl, refl)
db_create_session-db_get_session_by_token step_error now account pubkey ip token expires_at db =
    inl (refl, refl)
db_create_session-db_get_session_by_token runs now account pubkey ip token expires_at db =
    elim (Option-cases (session_with token db.sessions)) [
      | inr (s, used) ↦ inl (rw (db_create_session, used) (refl, refl))
      | inl new ↦
          let row = new_session db.next_session now account pubkey ip token expires_at in
          inr (
            rw (db_create_session, new)
              (
                refl,
                rw (db_get_session_by_token, new) refl,
                rw (db_get_session_by_token, session_with-append token db.sessions row new refl)
                    refl,
              ))
    ]
