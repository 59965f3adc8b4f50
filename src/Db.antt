-- ===== src/Db.antt =====
-- server/src/db.c: the statements that it prepares, over the tables that db_init creates. SQLite is
-- represented by what its documentation says of these statements: a row has the next AUTOINCREMENT
-- id, an INSERT that would repeat a UNIQUE column fails, a WHERE clause selects the rows that meet
-- it. Each call takes a `Run`, which says how far SQLite gets with the statement.
pub mod Init
pub mod Rows
pub mod Holders
pub mod Tokens
pub mod Accounts
use wg_auth.Base.{
  ℕ, ◌+◌, ◌<◌, Bool, true, false, ◌&&◌, ◌||◌, not, List, [], ◌∷◌, ◌++◌, Option, none, some, Bytes,
  strncpy, str_eq, ltb, leb, ◌==◌, if◌then◌else◌, take, Rc, success, failure,
}

-- sqlite3_prepare_v2 fails, sqlite3_step fails (SQLITE_BUSY and the like), or the statement runs.
pub data Run : Type 0 where
  prepare_error step_error runs : Run

-- The same for a SELECT of many rows: prepare_v2 or the first malloc fails; a step or a realloc
-- fails behind so many rows, which are given; or all rows are read.
pub data ListRun : Type 0 where
  unlisted : ListRun
  cut_off : ℕ → ListRun
  all_listed : ListRun

-- account_t, and a row of `accounts`
pub record Account : Type 0 where
  pub id : ℕ
  pub username : Bytes
  pub password_hash : Bytes
  pub created_at : ℕ
  pub disabled : ℕ

-- session_t, and a row of `sessions`; a NULL in last_seen_at reads as 0.
pub record Session : Type 0 where
  pub id : ℕ
  pub account_id : ℕ
  pub device_pubkey : Bytes
  pub allowed_ip : Bytes
  pub session_token : Bytes
  pub created_at : ℕ
  pub expires_at : ℕ
  pub revoked : ℕ
  pub last_seen_at : ℕ

-- A row of `audit_log`.
pub record Audit : Type 0 where
  pub account_id : ℕ
  pub action : Bytes
  pub detail : Bytes
  pub created_at : ℕ

pub record Db : Type 0 where
  pub accounts : List Account
  pub sessions : List Session
  pub audit_log : List Audit
  -- sqlite_sequence: the next id of each table.
  pub next_account : ℕ
  pub next_session : ℕ

-- The tables after db_init on a new file.
abbrev pub empty : Db
empty = record { accounts = []; sessions = []; audit_log = []; next_account = 1; next_session = 1 }

unfoldable pub account_named : Bytes → List Account → Option Account
account_named name [] = none
account_named name (a ∷ rest) = if str_eq a.username name then some a else account_named name rest

unfoldable pub session_with : Bytes → List Session → Option Session
session_with token [] = none
session_with token (s ∷ rest) =
    if str_eq s.session_token token then some s else session_with token rest

-- The copy of a row into an account_t, each text cut to its buffer.
abbrev pub read_account : Account → Account
read_account a = record a {
  username = strncpy 64 a.username;
  password_hash = strncpy 256 a.password_hash;
}

abbrev pub read_session : Session → Session
read_session s = record s {
  device_pubkey = strncpy 64 s.device_pubkey;
  allowed_ip = strncpy 32 s.allowed_ip;
  session_token = strncpy 64 s.session_token;
}

-- The five columns that the lists of sessions read, into a zeroed session_t.
abbrev pub read_short : Session → Session
read_short s = record (read_session s) {
  created_at = 0;
  expires_at = 0;
  revoked = 0;
  last_seen_at = 0;
}

-- A SELECT of at most one row: what sqlite3_step yields on it.
abbrev pub select {ℓ} : {A : Type ℓ} → Run → Option A → Option A
select runs row = row
select prepare_error row = none
select step_error row = none

-- A NULL name matches no row.
unfoldable pub db_get_account_by_username : Run → Option Bytes → Db → Option Account
db_get_account_by_username run none db = none
db_get_account_by_username run (some name) db = elim (select run (account_named name db.accounts)) [
  | none ↦ none
  | some a ↦ some (read_account a)
]

unfoldable pub db_create_account : Run → ℕ → Bytes → Bytes → Db → Db × Rc
db_create_account prepare_error now name hash db = (db, failure)
db_create_account step_error now name hash db = (db, failure)
db_create_account runs now name hash db = elim (account_named name db.accounts) [
  | some a ↦ (db, failure)
  | none ↦ (
    record db {
      accounts =
          db.accounts
          ++ record {
            id = db.next_account;
            username = name;
            password_hash = hash;
            created_at = now;
            disabled = 0;
          }
            ∷ [];
      next_account = db.next_account + 1;
    },
    success,
  )
]

-- The row that db_create_session inserts.
abbrev pub new_session : ℕ → ℕ → ℕ → Bytes → Bytes → Bytes → ℕ → Session
new_session id now account pubkey ip token expires_at = record {
  id = id;
  account_id = account;
  device_pubkey = pubkey;
  allowed_ip = ip;
  session_token = token;
  created_at = now;
  expires_at = expires_at;
  revoked = 0;
  last_seen_at = 0;
}

unfoldable pub db_create_session : Run → ℕ → ℕ → Bytes → Bytes → Bytes → ℕ → Db → Db × Rc
db_create_session prepare_error now account pubkey ip token expires_at db = (db, failure)
db_create_session step_error now account pubkey ip token expires_at db = (db, failure)
db_create_session runs now account pubkey ip token expires_at db =
    elim (session_with token db.sessions) [
      | some s ↦ (db, failure)
      | none ↦ (
        record db {
          sessions =
              db.sessions
              ++ new_session db.next_session now account pubkey ip token expires_at ∷ [];
          next_session = db.next_session + 1;
        },
        success,
      )
    ]

unfoldable pub db_get_session_by_token : Run → Bytes → Db → Option Session
db_get_session_by_token run token db = elim (select run (session_with token db.sessions)) [
  | none ↦ none
  | some s ↦ some (read_session s)
]

-- UPDATE sessions SET … WHERE id = ?
unfoldable pub update_id : (Session → Session) → ℕ → List Session → List Session
update_id f id [] = []
update_id f id (s ∷ rest) = (if s.id == id then f s else s) ∷ update_id f id rest

abbrev pub set_revoked : Session → Session
set_revoked s = record s { revoked = 1 }

abbrev pub set_expiry : ℕ → Session → Session
set_expiry t s = record s { expires_at = t }

abbrev pub update : Run → (Session → Session) → ℕ → Db → Db × Rc
update prepare_error f id db = (db, failure)
update step_error f id db = (db, failure)
update runs f id db = (record db { sessions = update_id f id db.sessions }, success)

unfoldable pub db_revoke_session : Run → ℕ → Db → Db × Rc
db_revoke_session run id db = update run set_revoked id db

unfoldable pub db_update_session_expiry : Run → ℕ → ℕ → Db → Db × Rc
db_update_session_expiry run id expires_at db = update run (set_expiry expires_at) id db

unfoldable pub filter : (Session → Bool) → List Session → List Session
filter test [] = []
filter test (s ∷ rest) = if test s then s ∷ filter test rest else filter test rest

-- revoked = 0 AND expires_at < now
abbrev pub is_expired : ℕ → Session → Bool
is_expired now s = s.revoked == 0 && ltb s.expires_at now

-- revoked = 0 AND expires_at >= now
abbrev pub is_active : ℕ → Session → Bool
is_active now s = s.revoked == 0 && leb now s.expires_at

abbrev pub read_all : List Session → List Session
read_all [] = []
read_all (s ∷ rest) = read_short s ∷ read_all rest

-- … LIMIT 100. `none` is the -1 of a statement that does not compile; one that fails at its first
-- step yields no row.
unfoldable pub db_get_expired_sessions : ListRun → ℕ → Db → Option (List Session)
db_get_expired_sessions unlisted now db = none
db_get_expired_sessions (cut_off rows) now db =
    some (read_all (take rows (take 100 (filter (is_expired now) db.sessions))))
db_get_expired_sessions all_listed now db =
    some (read_all (take 100 (filter (is_expired now) db.sessions)))

unfoldable pub db_get_active_sessions : ListRun → ℕ → Db → Option (List Session)
db_get_active_sessions unlisted now db = none
db_get_active_sessions (cut_off rows) now db =
    some (read_all (take rows (filter (is_active now) db.sessions)))
db_get_active_sessions all_listed now db = some (read_all (filter (is_active now) db.sessions))

unfoldable pub db_log_audit : Run → ℕ → ℕ → Bytes → Bytes → Db → Db × Rc
db_log_audit prepare_error now account action detail db = (db, failure)
db_log_audit step_error now account action detail db = (db, failure)
db_log_audit runs now account action detail db = (
  record db {
    audit_log =
        db.audit_log
        ++ record { account_id = account; action = action; detail = detail; created_at = now } ∷ [];
  },
  success,
)

-- SELECT COUNT(*)
unfoldable pub count : (Session → Bool) → List Session → ℕ
count test [] = 0
count test (s ∷ rest) = (if test s then 1 else 0) + count test rest

abbrev pub counts_for : ℕ → ℕ → Session → Bool
counts_for account now s = s.account_id == account && is_active now s

-- A statement that fails counts nothing.
unfoldable pub db_count_active_sessions : Run → ℕ → ℕ → Db → ℕ
db_count_active_sessions prepare_error now account db = 0
db_count_active_sessions step_error now account db = 0
db_count_active_sessions runs now account db = count (counts_for account now) db.sessions

unfoldable pub revoke_active : List Session → List Session
revoke_active [] = []
revoke_active (s ∷ rest) = (if s.revoked == 0 then set_revoked s else s) ∷ revoke_active rest

-- The result of sqlite3_exec is dropped.
unfoldable pub db_revoke_all_active_sessions : Run → Db → Db
db_revoke_all_active_sessions runs db = record db { sessions = revoke_active db.sessions }
db_revoke_all_active_sessions prepare_error db = db
db_revoke_all_active_sessions step_error db = db
