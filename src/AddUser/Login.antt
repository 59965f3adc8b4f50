-- ===== src/AddUser/Login.antt =====
-- An account that vpn-add-user has created, at the server.
use wg_auth.Base.{
  ◌≤◌, ◌≡◌, refl, ◌∙◌, ap, true, false, List, Option, none, some, Bytes, take_all, length, arith,
}
use wg_auth.AddUser.Laws.{Created, add_user_sound}
use wg_auth.AddUser.{Terminal, created, parse_args, add_user}
use wg_auth.Api.Login.Complete.{checked, handle_login-login_session}
use wg_auth.Api.Login.Paths.{Authentic}
use wg_auth.Api.Login.{login_session, handle_login}
use wg_auth.Api.{ClientAddress, get_client_ip}
use wg_auth.Auth.{auth_hash_password}
use wg_auth.Config.{ServerConfig}
use wg_auth.Db.{Db, Account, runs, db_get_account_by_username, read_account}
use wg_auth.External.{External, PwhashLaws, JsonObject, text}
use wg_auth.RateLimit.{check_rate_limit}
use wg_auth.Server.{Server, Calls}

module _ {K : Type 0} (ext : External K) (laws : PwhashLaws ext) (cfg : ServerConfig)
    (calls : Calls) where
  hashed_sound :
      (cfg' : ServerConfig) (secret hash : Bytes)
      → auth_hash_password ext cfg' secret ≡ some hash
      → (ext.pwhash_verify hash secret ≡ true) × (length hash ≤ 127)
  unfolding auth_hash_password
  hashed_sound cfg' secret hash e =
      (laws.verified secret hash _ _ e, laws.length_hash secret hash _ _ e)

  found_there :
      (username : Bytes) (db db' : Db)
      → db.accounts ≡ db'.accounts
      → calls.select_run ≡ runs
      → db_get_account_by_username calls.select_run (some username) db
        ≡ db_get_account_by_username runs (some username) db'
  unfolding db_get_account_by_username
  found_there username db db' same run =
      ap (λ r. db_get_account_by_username r (some username) db) run ∙ rw same refl

  Created-Authentic :
      (t : Terminal) (path username secret : Bytes) (db db' : Db) (json : JsonObject)
      → Created ext t path db' username secret
      → db.accounts ≡ db'.accounts
      → calls.select_run ≡ runs
      → json "username" ≡ some (text username)
      → json "password" ≡ some (text secret)
      → (acc : Account) × Authentic ext cfg calls json db acc
  Created-Authentic t path username secret db db' json
        (cfg', old, hash, _, hashed, _, (a, found, named, hash_is, enabled)) same run u p =
      let (right, short) = hashed_sound cfg' secret hash hashed in
      (
        read_account a,
        record {
          user = text username;
          password = secret;
          has_username = u;
          has_password = p;
          found = found_there username db db' same run ∙ found;
          enabled = enabled;
          verified = rw (hash_is, take_all 255 hash (omega (arith, short))) right;
        },
      )

  -- Where vpn-add-user has exited with 0, and a server has the accounts that it left: a login that
  -- names the user and the password that were typed, from an address that is not limited, is
  -- authentic and comes to the limit on sessions. This is provided that SQLite runs the SELECT, and
  -- that libsodium's check accepts what its hash function has made, in at most 127 bytes.
  pub account_logs_in :
      (t : Terminal) (args : List Bytes) (path : Bytes) (db' : Db) (username secret : Bytes)
      (option : Option Bytes) (address : ClientAddress) (body : Bytes) (st : Server K)
      (json : JsonObject)
      → add_user ext t args ≡ created path db'
      → parse_args args none none ≡ some (some username, option)
      → t.password ≡ some secret
      → st.db.accounts ≡ db'.accounts
      → calls.select_run ≡ runs
      → (check_rate_limit calls.limit_time (get_client_ip ext.net address) st.fails).0 ≡ false
      → ext.parse_json body ≡ some json
      → json "username" ≡ some (text username)
      → json "password" ≡ some (text secret)
      → (acc : Account) × Authentic ext cfg calls json st.db acc
        × (handle_login ext cfg calls address body st
            ≡ login_session ext cfg calls acc (checked ext cfg calls address st))
  account_logs_in t args path db' username secret option address body st json made parsed typed same
        run unlimited body_parsed u p =
      let (username', option', secret', parsed', typed', _, there) =
        add_user_sound ext t args path db' made in
      let same_name : username' ≡ username = cc (parsed', parsed) in
      let same_secret : secret' ≡ secret = cc (typed', typed) in
      let (acc, authentic) =
        Created-Authentic t path username' secret' st.db db' json there same run (rw same_name u)
          (rw same_secret p) in
      (
        acc,
        authentic,
        handle_login-login_session ext cfg calls address body st json acc unlimited body_parsed
            authentic,
      )
