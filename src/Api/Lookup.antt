-- ===== src/Api/Lookup.antt =====
-- What the session handlers find: the copy of a row that carries the token of the request.
use wg_auth.Base.{
  ◌≡◌, refl, inl, inr, false, Option, none, some, Bytes, Option-cases, Bool-cases, List, [], ◌∷◌,
  some_injective, str_eq, str_eq_iff,
}
use wg_auth.Api.{session_of_token, session_of_item, session_of_body, bad_token_length}
use wg_auth.Db.Rows.{Has, session_with-Has}
use wg_auth.Db.{Db, Session, Run, runs, session_with, db_get_session_by_token, read_session}
use wg_auth.External.{External, Item, text, other, JsonObject}
use wg_auth.Server.{Calls}

-- `sess` is the copy of a row of the table with this token.
pub record IsRowOf (token : Bytes) (db : Db) (sess : Session) : Type 0 where
  pub row : Session
  pub has : Has row db.sessions
  pub found : session_with token db.sessions ≡ some row
  pub same_token : row.session_token ≡ token
  pub copied : sess ≡ read_session row
  pub length_ok : bad_token_length token ≡ false

session_with-token :
    (token : Bytes) (ss : List Session) (s : Session)
    → session_with token ss ≡ some s
    → s.session_token ≡ token
unfolding session_with
session_with-token token [] s e = cc
session_with-token token (x ∷ rest) s e = elim (Bool-cases (str_eq x.session_token token)) [
  | inl hit ↦ rw (← some_injective (rw (hit, session_with) at e)) ((str_eq_iff _ token).0 hit)
  | inr miss ↦ session_with-token token rest s (rw (miss, session_with) at e)
]

db_get_session-row :
    (run : Run) (token : Bytes) (db : Db) (sess : Session)
    → db_get_session_by_token run token db ≡ some sess
    → (row : Session) × (session_with token db.sessions ≡ some row) × (sess ≡ read_session row)
unfolding db_get_session_by_token
db_get_session-row runs token db sess e = elim (Option-cases (session_with token db.sessions)) [
  | inl gone ↦ cc (rw (gone, db_get_session_by_token) at e)
  | inr (row, found) ↦ (row, found, cc (rw (found, db_get_session_by_token) at e))
]
db_get_session-row _ token db sess e = cc

pub session_of_token-IsRowOf :
    (calls : Calls) (token : Bytes) (db : Db) (sess : Session)
    → session_of_token calls token db ≡ inl sess
    → IsRowOf token db sess
unfolding session_of_token
session_of_token-IsRowOf calls token db sess e = elim (Bool-cases (bad_token_length token)) [
  | inl bad ↦ cc (rw (bad, session_of_token) at e)
  | inr fine ↦ elim (Option-cases (db_get_session_by_token calls.select_run token db)) [
    | inl gone ↦ cc (rw (fine, gone, session_of_token) at e)
    | inr (found, e') ↦
        let (row, has, copied) = db_get_session-row calls.select_run token db found e' in
        record {
          row = row;
          has = session_with-Has token db.sessions row has;
          found = has;
          same_token = session_with-token token db.sessions row has;
          copied = cc (copied, rw (fine, e', session_of_token) at e);
          length_ok = fine;
        }
  ]
]

module _ {K : Type 0} (ext : External K) (calls : Calls) where
  -- A handler gets past its checks of the request only with a row that carries the request's token.
  pub session_of_body-IsRowOf :
      (body : Bytes) (db : Db) (sess : Session)
      → session_of_body ext calls body db ≡ inl sess
      → (json : JsonObject) × (token : Bytes) × (ext.parse_json body ≡ some json)
        × (json "session_token" ≡ some (text token))
        × IsRowOf token db sess
  unfolding session_of_body session_of_item
  session_of_body-IsRowOf body db sess e = elim (Option-cases (ext.parse_json body)) [
    | inl bad ↦ cc (rw (bad, session_of_body) at e)
    | inr (json, parsed) ↦
        item json parsed (json "session_token") refl (rw (parsed, session_of_body) at e)
  ]
    where
      item :
          (json : JsonObject)
          → ext.parse_json body ≡ some json
          → (i : Option Item) → json "session_token" ≡ i
          → session_of_item calls (json "session_token") db ≡ inl sess
          → (json' : JsonObject) × (token : Bytes) × (ext.parse_json body ≡ some json')
            × (json' "session_token" ≡ some (text token))
            × IsRowOf token db sess
      item json parsed none at e' = cc (rw at at e')
      item json parsed (some other) at e' = cc (rw at at e')
      item json parsed (some (text token)) at e' =
          (json, token, parsed, at, session_of_token-IsRowOf calls token db sess (rw at at e'))
