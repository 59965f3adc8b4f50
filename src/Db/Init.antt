-- ===== src/Db/Init.antt =====
-- server/src/db.c: db_init, over a file that may lack some of the tables or all.
use wg_auth.Base.{
  ℕ, ◌≡◌, ◌≢◌, refl, Bool, not, List, [], ◌∷◌, Option, none, some, Bytes, codes, Rc, success,
  failure, if◌then◌else◌, Bool-cases, inl, inr,
}
use wg_auth.Db.{Db, Account, Session, Audit}

-- The tables of a file, where they exist. The first two come with the next id of sqlite_sequence.
pub record Tables : Type 0 where
  pub account_rows : Option (List Account × ℕ)
  pub session_rows : Option (List Session × ℕ)
  pub audit_rows : Option (List Audit)

-- CREATE TABLE IF NOT EXISTS
abbrev pub or_new {ℓ} : {A : Type ℓ} → A → Option A → Option A
or_new rows none = some rows
or_new rows (some stored) = some stored

abbrev pub sql_accounts : Tables → Tables
sql_accounts t = record t { account_rows = or_new ([], 1) t.account_rows }

abbrev pub sql_sessions : Tables → Tables
sql_sessions t = record t { session_rows = or_new ([], 1) t.session_rows }

abbrev pub sql_audit : Tables → Tables
sql_audit t = record t { audit_rows = or_new [] t.audit_rows }

-- Whether sqlite3_open_v2 and the three statements succeed. What becomes of the two indexes is
-- ignored.
pub record Opening : Type 0 where
  pub opens : Bool
  pub accounts_run : Bool
  pub sessions_run : Bool
  pub audit_run : Bool

-- A statement that fails changes nothing.
unfoldable pub exec_sql : Bool → (Tables → Tables) → Tables → Tables × Rc
exec_sql run sql t = if run then (sql t, success) else (t, failure)

-- `if (...) return -1;`
unfoldable pub unless_failed : Tables × Rc → (Tables → Tables × Rc) → Tables × Rc
unless_failed (t, success) next = next t
unless_failed (t, failure) next = (t, failure)

unfoldable pub db_init : Opening → Tables → Tables × Rc
db_init o t =
    if not o.opens
    then (t, failure)
    else unless_failed (exec_sql o.accounts_run sql_accounts t) (λ t'.
      unless_failed (exec_sql o.sessions_run sql_sessions t') (exec_sql o.audit_run sql_audit))

-- The tables as the statements find them.
unfoldable pub db_of : Tables → Option Db
db_of t = elim t.account_rows [
  | none ↦ none
  | some (accounts, next_account) ↦ elim t.session_rows [
    | none ↦ none
    | some (sessions, next_session) ↦ elim t.audit_rows [
      | none ↦ none
      | some audit_log ↦ some (record {
        accounts = accounts;
        sessions = sessions;
        audit_log = audit_log;
        next_account = next_account;
        next_session = next_session;
      })
    ]
  ]
]

-- g_config.db_path[0] ? g_config.db_path : "/var/lib/vpn-authd/accounts.db"
abbrev pub path_or_default : Bytes → Bytes
path_or_default [] = codes "/var/lib/vpn-authd/accounts.db"
path_or_default (c ∷ path) = c ∷ path

abbrev or_else {ℓ} : {A : Type ℓ} → A → Option A → A
or_else rows none = rows
or_else rows (some stored) = stored

-- The rows that a file holds; a table that it lacks has none.
abbrev pub stored_db : Tables → Db
stored_db t = record {
  accounts = (or_else ([], 1) t.account_rows).0;
  sessions = (or_else ([], 1) t.session_rows).0;
  audit_log = or_else [] t.audit_rows;
  next_account = (or_else ([], 1) t.account_rows).1;
  next_session = (or_else ([], 1) t.session_rows).1;
}

-- Each table of the first file is there, unchanged, in the second.
pub record Kept (t t' : Tables) : Type 0 where
  pub accounts_kept : t.account_rows ≢ none → t'.account_rows ≡ t.account_rows
  pub sessions_kept : t.session_rows ≢ none → t'.session_rows ≡ t.session_rows
  pub audit_kept : t.audit_rows ≢ none → t'.audit_rows ≡ t.audit_rows

or_new_kept {ℓ} : {A : Type ℓ} (rows : A) (o : Option A) → o ≢ none → or_new rows o ≡ o
or_new_kept rows none there = absurd (there refl)
or_new_kept rows (some stored) there = refl

or_new_else {ℓ} : {A : Type ℓ} (rows : A) (o : Option A) → or_new rows o ≡ some (or_else rows o)
or_new_else rows none = refl
or_new_else rows (some stored) = refl

db_of-filled : (t : Tables) → db_of (sql_audit (sql_sessions (sql_accounts t))) ≡ some (stored_db t)
unfolding db_of
db_of-filled t =
    rw
      (
        or_new_else ([], 1) t.account_rows,
        or_new_else ([], 1) t.session_rows,
        or_new_else [] t.audit_rows,
      )
      refl

-- db_init leaves every row that a file holds, wherever it fails; and where it succeeds, the tables
-- are those of the file, with an empty one for each that it lacked.
pub db_init_keeps :
    (o : Opening) (t : Tables)
    → let (t', rc) = db_init o t in Kept t t' × (rc ≡ success → db_of t' ≡ some (stored_db t))
unfolding db_init unless_failed exec_sql
db_init_keeps o t = elim (Bool-cases o.opens) [
  | inr shut ↦ rw (db_init, shut) (untouched, λ e. cc)
  | inl opened ↦ elim (Bool-cases o.accounts_run) [
    | inr bad ↦ rw (db_init, opened, bad) (untouched, λ e. cc)
    | inl first ↦ elim (Bool-cases o.sessions_run) [
      | inr bad ↦
          rw (db_init, opened, first, bad)
            (
              record {
                accounts_kept = accounts;
                sessions_kept = λ n. refl;
                audit_kept = λ n. refl;
              },
              λ e. cc,
            )
      | inl second ↦ elim (Bool-cases o.audit_run) [
        | inr bad ↦
            rw (db_init, opened, first, second, bad)
              (
                record {
                  accounts_kept = accounts;
                  sessions_kept = sessions;
                  audit_kept = λ n. refl;
                },
                λ e. cc,
              )
        | inl third ↦
            rw (db_init, opened, first, second, third)
              (
                record {
                  accounts_kept = accounts;
                  sessions_kept = sessions;
                  audit_kept = or_new_kept [] t.audit_rows;
                },
                λ e. db_of-filled t,
              )
      ]
    ]
  ]
]
  where
    untouched : Kept t t
    untouched = record {
      accounts_kept = λ n. refl;
      sessions_kept = λ n. refl;
      audit_kept = λ n. refl;
    }

    accounts : t.account_rows ≢ none → or_new ([], 1) t.account_rows ≡ t.account_rows
    accounts = or_new_kept ([], 1) t.account_rows

    sessions : t.session_rows ≢ none → or_new ([], 1) t.session_rows ≡ t.session_rows
    sessions = or_new_kept ([], 1) t.session_rows
