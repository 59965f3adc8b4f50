-- ===== src/Db/Accounts.antt =====
-- The accounts that vpn-add-user creates and that a login looks up.
use wg_auth.Base.{
  ℕ, ◌+◌, ◌≡◌, refl, ◌⊎◌, inl, inr, List, [], ◌∷◌, ◌++◌, none, some, Bytes, Bool-cases,
  Option-cases, arith, str_eq, str_eq_refl, success, failure,
}
use wg_auth.Db.{
  Db, Account, Run, runs, prepare_error, step_error, account_named, db_create_account,
  db_get_account_by_username, read_account,
}

account_named-append :
    (name : Bytes) (accounts : List Account) (a : Account)
    → account_named name accounts ≡ none
    → a.username ≡ name
    → account_named name (accounts ++ a ∷ []) ≡ some a
unfolding account_named
account_named-append name [] a new same = rw same (ground (arith, str_eq_refl name))
account_named-append name (x ∷ rest) a new same = elim (Bool-cases (str_eq x.username name)) [
  | inl hit ↦ cc (rw (hit, account_named) at new)
  | inr miss ↦
      rw (account_named, miss)
        (account_named-append name rest a (rw (account_named, miss) at new) same)
]

-- The account with this name and this hash is found, enabled.
abbrev pub Finds : Bytes → Bytes → Db → Type 0
Finds name hash db =
    (a : Account) × (db_get_account_by_username runs (some name) db ≡ some (read_account a))
    × (a.username ≡ name)
    × (a.password_hash ≡ hash)
    × (a.disabled ≡ 0)

-- The row that db_create_account inserts.
abbrev fresh : ℕ → Bytes → Bytes → Db → Account
fresh now name hash db = record {
  id = db.next_account;
  username = name;
  password_hash = hash;
  created_at = now;
  disabled = 0;
}

taken_name :
    (run : Run) (now : ℕ) (name hash : Bytes) (db : Db) (a : Account)
    → account_named name db.accounts ≡ some a
    → db_create_account run now name hash db ≡ (db, failure)
unfolding db_create_account
taken_name prepare_error now name hash db a found = refl
taken_name step_error now name hash db a found = refl
taken_name runs now name hash db a found = rw (db_create_account, found) refl

-- db_create_account answers 0 only where no account has the name; then the account is found,
-- enabled, under that name and with that hash, and a second call with the name, whatever its hash,
-- answers -1 and changes nothing. Where it answers -1, it changed nothing.
pub db_create_account-once :
    (run again : Run) (now later : ℕ) (name hash hash' : Bytes) (db : Db)
    → let (db', rc) = db_create_account run now name hash db in
      ((rc ≡ failure) × (db' ≡ db))
      ⊎ ((rc ≡ success)
          × (db_get_account_by_username runs (some name) db ≡ none)
          × Finds name hash db'
          × (db_create_account again later name hash' db' ≡ (db', failure)))
unfolding db_create_account db_get_account_by_username
db_create_account-once prepare_error again now later name hash hash' db = inl (refl, refl)
db_create_account-once step_error again now later name hash hash' db = inl (refl, refl)
db_create_account-once runs again now later name hash hash' db =
    elim (Option-cases (account_named name db.accounts)) [
      | inr (a, used) ↦ inl (rw (db_create_account, used) (refl, refl))
      | inl new ↦
          let found = account_named-append name db.accounts (fresh now name hash db) new refl in
          inr (
            rw (db_create_account, new)
              (
                refl,
                rw (db_get_account_by_username, new) refl,
                (
                  fresh now name hash db,
                  rw (db_get_account_by_username, found) refl,
                  refl,
                  refl,
                  refl,
                ),
                taken_name again later name hash'
                    (record db {
                      accounts = db.accounts ++ fresh now name hash db ∷ [];
                      next_account = db.next_account + 1;
                    })
                    (fresh now name hash db) found,
              ))
    ]
