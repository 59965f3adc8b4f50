-- ===== src/Api/Written.antt =====
-- What an UPDATE of one session leaves in the table.
use wg_auth.Base.{
  ℕ, ◌≡◌, ◌≢◌, ◌⊎◌, refl, sym, ◌∙◌, ap, inl, inr, true, List, some, Bytes, ◌==◌, ==_iff,
}
use wg_auth.Api.Lookup.{IsRowOf}
use wg_auth.Db.Rows.{Has, update_id-Has}
use wg_auth.Db.Tokens.{session_with-update_id}
use wg_auth.Db.{Db, Session, Run, runs, prepare_error, step_error, session_with, update}

-- Either SQLite ran the UPDATE: the token now leads to the new row, and every row with another id
-- is still there; or it failed, and the table is as it was.
abbrev pub Written : Run → Bytes → Session → ℕ → List Session → List Session → Type 0
Written run token new id before after =
    ((run ≡ runs)
      × (session_with token after ≡ some new)
      × ((r : Session) → Has r before → r.id ≢ id → Has r after))
    ⊎ ((run ≢ runs) × (after ≡ before))

pub update-Written :
    (f : Session → Session) (run : Run) (token : Bytes) (db : Db) (sess : Session)
    → ((s : Session) → (f s).session_token ≡ s.session_token)
    → ((s : Session) → (f s).id ≡ s.id)
    → (row : IsRowOf token db sess)
    → Written run token (f row.row) sess.id db.sessions (update run f sess.id db).0.sessions
update-Written f prepare_error token db sess same_token same_id row = inr (λ e. cc, refl)
update-Written f step_error token db sess same_token same_id row = inr (λ e. cc, refl)
update-Written f runs token db sess same_token same_id row =
    let hit : (row.row.id == sess.id) ≡ true =
      (==_iff row.row.id sess.id).1 (sym (ap (λ s. s.id) row.copied)) in
    inl (
      refl,
      session_with-update_id f sess.id token db.sessions same_token ∙ rw (row.found, hit) refl,
      λ r has other. update_id-Has f same_id sess.id r db.sessions other has,
    )
