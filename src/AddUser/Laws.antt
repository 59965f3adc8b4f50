-- ===== src/AddUser/Laws.antt =====
-- An account that vpn-add-user creates is one that can log in.
use wg_auth.Base.{
  ◌≡◌, ◌≢◌, refl, subst, inl, inr, Bool, true, false, List, [], ◌∷◌, Option, none, some, Bytes,
  Option-cases, Rc, success, failure, if◌then◌else◌,
}
use wg_auth.AddUser.{
  Terminal, Exit, failed, created, exit_of, create, with_password, parse_args, choose_path,
  add_user,
}
use wg_auth.Auth.{auth_hash_password}
use wg_auth.Config.{ServerConfig}
use wg_auth.Db.Accounts.{Finds, db_create_account-once}
use wg_auth.Db.{Db, db_create_account, db_get_account_by_username, runs}
use wg_auth.External.{External}

module _ {K : Type 0} (ext : External K) (t : Terminal) where
  -- The tables at the path had no such account, and now have one with a hash of the password.
  abbrev pub Created : Bytes → Db → Bytes → Bytes → Type 0
  Created path db' username password =
      (cfg : ServerConfig) × (db : Db) × (hash : Bytes) × (t.opened path ≡ some db)
      × (auth_hash_password ext cfg password ≡ some hash)
      × (db_get_account_by_username runs (some username) db ≡ none)
      × Finds username hash db'

  exit_of_sound :
      (path path' : Bytes) (r : Db × Rc) (db' : Db)
      → exit_of path r ≡ created path' db'
      → (path ≡ path') × (r.0 ≡ db') × (r.1 ≡ success)
  exit_of_sound path path' (db, failure) db' e = cc
  exit_of_sound path path' (db, success) db' e = (cc, cc, refl)

  create_sound :
      (cfg : ServerConfig) (path username password path' : Bytes) (db' : Db)
      → create ext t cfg path username password ≡ created path' db'
      → Created path' db' username password
  unfolding create
  create_sound cfg path username password path' db' e = elim (Option-cases (t.opened path)) [
    | inl shut ↦ cc (rw (create, shut) at e)
    | inr (db, opened) ↦ elim (Option-cases (auth_hash_password ext cfg password)) [
      | inl bad ↦ cc (rw (create, opened, bad) at e)
      | inr (hash, hashed) ↦
          let (same_path, same, done) =
            exit_of_sound path path' (db_create_account t.insert_run t.insert_time username hash db)
              db' (rw (create, opened, hashed) at e) in
          elim (db_create_account-once t.insert_run runs t.insert_time 0 username hash hash db) [
            | inl (refused, kept) ↦ cc (done, refused)
            | inr (ok, new, finds, again) ↦ (
              cfg,
              db,
              hash,
              rw (← same_path) opened,
              hashed,
              new,
              subst (Finds username hash) same finds,
            )
          ]
    ]
  ]

  with_password_sound :
      (cfg : ServerConfig) (path username : Bytes) (password : Option Bytes) (path' : Bytes)
      (db' : Db)
      → with_password ext t cfg path username password ≡ created path' db'
      → (secret : Bytes) × (password ≡ some secret)
        × (secret ≢ [])
        × Created path' db' username secret
  unfolding with_password
  with_password_sound cfg path username none path' db' e = cc
  with_password_sound cfg path username (some []) path' db' e = cc
  with_password_sound cfg path username (some (c ∷ secret)) path' db' e =
      (c ∷ secret, refl, λ empty. cc, create_sound cfg path username (c ∷ secret) path' db' e)

  guarded :
      (b : Bool) (x : Exit) (path : Bytes) (db' : Db)
      → (if b then x else failed) ≡ created path db'
      → x ≡ created path db'
  guarded true x path db' e = e
  guarded false x path db' e = cc

  -- Where vpn-add-user exits with 0, its arguments named a user, the password that it read is not
  -- empty, no account of the tables had the name, and they now have an account with it, enabled,
  -- whose hash libsodium made of that password.
  pub add_user_sound :
      (args : List Bytes) (path : Bytes) (db' : Db)
      → add_user ext t args ≡ created path db'
      → (username : Bytes) × (option : Option Bytes) × (secret : Bytes) × (parse_args args none none
          ≡ some (some username, option))
        × (t.password ≡ some secret)
        × (secret ≢ [])
        × Created path db' username secret
  unfolding add_user
  add_user_sound args path db' e = elim (Option-cases (parse_args args none none)) [
    | inl usage ↦ cc (rw (add_user, usage) at e)
    | inr ((none, option), parsed) ↦ cc (rw (add_user, parsed) at e)
    | inr ((some username, option), parsed) ↦
        let (cfg, chosen) = choose_path t option in
        let (secret, read, nonempty, made) =
          with_password_sound cfg chosen username t.password path db' (
            guarded t.sodium_ready (with_password ext t cfg chosen username t.password) path db'
              (rw (add_user, parsed) at e)) in
        (username, option, secret, parsed, read, nonempty, made)
  ]
