-- ===== src/Api/Replies.antt =====
-- The statuses of the responses: no refusal looks like a success.
use wg_auth.Base.{
  ℕ, ◌≡◌, subst, ◌⊎◌, ◌≢◌, inl, inr, Option, none, some, Option-cases, Bool-cases, arith, Bytes,
  String,
}
use wg_auth.Api.{
  send_json_response, send_error, session_of_body, session_of_item, session_of_token,
  bad_token_length,
}
use wg_auth.Db.{Db, Session, db_get_session_by_token}
use wg_auth.External.{External, Item, text, other}
use wg_auth.Server.{Server, Calls, Reply, respond, closed, fault}

-- The status of a response; `none` where there is none.
abbrev pub status_of : Reply → Option ℕ
status_of (respond status fields) = some status
status_of closed = none
status_of fault = none

-- An error is never sent with status 200.
pub send_error_status :
    (calls : Calls) (message : String) (status : ℕ)
    → status ≢ 200
    → status_of (send_error calls message status) ≢ some 200
unfolding send_json_response
send_error_status calls message status h e = ground (arith, h)

-- An error that is the reply is no success.
refused :
    (calls : Calls) (message : String) (status : ℕ) (reply : Reply)
    → status ≢ 200
    → send_error calls message status ≡ reply
    → status_of reply ≢ some 200
refused calls message status reply h e =
    subst (λ r. status_of r ≢ some 200) e (send_error_status calls message status h)

inr_injective : {a b : Reply} → ◌≡◌ {A = Session ⊎ Reply} (inr a) (inr b) → a ≡ b
inr_injective e = cc

pub session_of_token-refusal :
    (calls : Calls) (token : Bytes) (db : Db) (reply : Reply)
    → session_of_token calls token db ≡ inr reply
    → status_of reply ≢ some 200
unfolding session_of_token
session_of_token-refusal calls token db reply e = elim (Bool-cases (bad_token_length token)) [
  | inl bad ↦
      refused calls "Invalid token format" 400 reply (omega arith)
        (inr_injective (rw (session_of_token, bad) at e))
  | inr fine ↦ elim (Option-cases (db_get_session_by_token calls.select_run token db)) [
    | inl gone ↦
        refused calls "Session not found" 404 reply (omega arith)
          (inr_injective (rw (session_of_token, fine, gone) at e))
    | inr (sess, found) ↦ cc (rw (session_of_token, fine, found) at e)
  ]
]

session_of_item-refusal :
    (calls : Calls) (item : Option Item) (db : Db) (reply : Reply)
    → session_of_item calls item db ≡ inr reply
    → status_of reply ≢ some 200
unfolding session_of_item
session_of_item-refusal calls none db reply e =
    refused calls "Missing session_token" 400 reply (omega arith) (inr_injective e)
session_of_item-refusal calls (some other) db reply e =
    refused calls "Missing session_token" 400 reply (omega arith) (inr_injective e)
session_of_item-refusal calls (some (text token)) db reply e =
    session_of_token-refusal calls token db reply e

pub session_of_body-refusal :
    {K : Type 0} (ext : External K) (calls : Calls) (body : Bytes) (db : Db) (reply : Reply)
    → session_of_body ext calls body db ≡ inr reply
    → status_of reply ≢ some 200
unfolding session_of_body
session_of_body-refusal ext calls body db reply e = elim (Option-cases (ext.parse_json body)) [
  | inl bad ↦
      refused calls "Invalid JSON" 400 reply (omega arith)
        (inr_injective (rw (session_of_body, bad) at e))
  | inr (json, parsed) ↦
      session_of_item-refusal calls (json "session_token") db reply
        (rw (session_of_body, parsed) at e)
]

-- The handler changes nothing, and does not answer with status 200.
abbrev pub Untouched : {K : Type 0} → Server K × Reply → Server K → Type 0
Untouched r st = (r.0 ≡ st) × (status_of r.1 ≢ some 200)
