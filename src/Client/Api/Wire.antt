-- ===== src/Client/Api/Wire.antt =====
-- The client's login against the server's: the response that handle_login gives, as the client
-- reads it.
use wg_auth.Base.{
  ℕ, ◌+◌, ◌≤◌, ◌<◌, ◌≡◌, ◌≢◌, ◌⊎◌, ◌++◌, refl, sym, ap, ◌∙◌, inl, inr, true, [], ◌∷◌, Option, none,
  some, Bytes, codes, Bool-cases, arith, ◌==◌, if◌then◌else◌, length, strncpy, take_all,
  length-take_le, str_eq,
}
use wg_auth.Api.Login.Outcome.{handle_login_outcome}
use wg_auth.Api.Login.{login_fields, handle_login}
use wg_auth.Api.Replies.{status_of}
use wg_auth.Api.{ClientAddress, send_json_response}
use wg_auth.Auth.{auth_generate_token, auth_generate_keypair}
use wg_auth.Client.Api.{
  Settings, ClientConfig, write_memory_cb, write_parts, post_request, read_response, do_post,
  config_of, with_token, client_api_login, copy_string_field,
}
use wg_auth.Client.{Member, string, number, Response, Transfer, Http}
use wg_auth.Config.Load.{to_nul}
use wg_auth.Config.{ServerConfig}
use wg_auth.Db.{Session}
use wg_auth.External.{Inet, External, InetLaws}
use wg_auth.IpPool.Shape.{IsReady}
use wg_auth.IpPool.{address_text}
use wg_auth.Libc.{pos}
use wg_auth.Server.{Server, Calls, Value, Fields, Reply, respond, closed, fault}

abbrev pub member_of : Value → Member
member_of (Value.string s) = string s
member_of (Value.number n) = number (pos n)

-- The object with these members, as cJSON_GetObjectItemCaseSensitive reads it.
unfoldable pub object_of : Fields → Response
object_of [] key = none
object_of ((name, value) ∷ fields) key =
    if str_eq (codes name) (codes key) then some (member_of value) else object_of fields key

-- A reply on its way: its body is the printed object. Without a response curl reports an error.
abbrev pub transfer_of : (Fields → Bytes) → Reply → Option Transfer
transfer_of print (respond status fields) =
    some (record { http_code = status; parts = (true, print fields) ∷ [] })
transfer_of print closed = none
transfer_of print fault = none

module _ {N : Type 0} (http : Http N) (print : Fields → Bytes) where
  -- cJSON reads back what it has printed, and prints no empty text.
  pub record WireLaws : Type 0 where
    pub reads :
        (fields : Fields) → http.parse_json (to_nul (print fields)) ≡ some (object_of fields)
    pub nonempty : (fields : Fields) → 0 < length (print fields)

  pub read_refused :
      (reply : Reply)
      → status_of reply ≢ some 200
      → read_response http (transfer_of print reply) ≡ none
  unfolding read_response write_parts write_memory_cb
  read_refused (respond status fields) h = elim (Bool-cases (status == 200)) [
    | inl ok ↦ absurd (h (ground (arith, ok)))
    | inr bad ↦ rw bad refl
  ]
  read_refused closed h = refl
  read_refused fault h = refl

  pub read_accepted :
      (wire : WireLaws) (fields : Fields)
      → read_response http (transfer_of print (respond 200 fields)) ≡ some (object_of fields)
  unfolding read_response write_parts write_memory_cb
  read_accepted wire fields = ground (arith, wire.reads fields, wire.nonempty fields)

pub send_printed :
    (calls : Calls) (fields : Fields)
    → calls.printed ≡ true
    → send_json_response calls fields 200 ≡ respond 200 fields
unfolding send_json_response
send_printed calls fields printed = rw printed refl

length-address : (net : Inet) (a : ℕ) → length (address_text net 32 a) ≤ 31
unfolding address_text
length-address net a = length-take_le 31 (net.ntop a ++ codes "/32")

with_token_given :
    (config : ClientConfig) → config.session_token ≢ [] → with_token config ≡ some config
with_token_given config given = whole config.session_token given
  where
    whole :
        (token : Bytes)
        → token ≢ []
        → elim token as (λ t. Option ClientConfig) [ [] ↦ none | c ∷ rest ↦ some config ]
          ≡ some config
    whole [] h = absurd (h refl)
    whole (c ∷ rest) h = refl

login_answered :
    {N : Type 0} (http : Http N) (print : Fields → Bytes) (wire : WireLaws http print)
    (s : Settings) (username password : Bytes) (n : N) (fields : Fields)
    → (http.perform
        (post_request s
          (codes "/login")
          (http.print_strings (("username", username) ∷ ("password", password) ∷ []))
          none)
        n).1
      ≡ transfer_of print (respond 200 fields)
    → (config_of (object_of fields)).session_token ≢ []
    → (client_api_login http s username password n).1 ≡ some (config_of (object_of fields))
unfolding client_api_login do_post
login_answered http print wire s username password n fields sent given =
    rw (client_api_login, do_post, sent, read_accepted http print wire fields)
      (with_token_given (config_of (object_of fields)) given)

module _ {K : Type 0} (ext : External K) (cfg : ServerConfig) (calls : Calls) where
  -- What the client takes from the fields of a granted login.
  read_login :
      (token private_key ip : Bytes) (server_key : Option Bytes) (expires_at : ℕ)
      → let config =
          config_of
            (object_of (login_fields ext cfg calls token private_key ip server_key expires_at)) in
        (config.session_token ≡ strncpy 64 token)
        × (config.client_address ≡ strncpy 64 ip)
        × (config.expires_at ≡ pos expires_at)
  unfolding config_of copy_string_field object_of str_eq
  read_login token private_key ip server_key expires_at = (refl, refl, refl)

module _ {K N : Type 0} (ext : External K) (laws : InetLaws ext.net) (cfg : ServerConfig)
    (calls : Calls) (http : Http N) (print : Fields → Bytes) (wire : WireLaws http print) where
  -- The client's login, where the request reaches handle_login and its reply reaches the client,
  -- the server has the memory for its response, and the token has 1 to 63 bytes: either the client
  -- reports a failure, and no session was added; or it has the token, the address and the expiry of
  -- the one session that was added.
  pub client_login_agrees :
      (address : ClientAddress) (body : Bytes) (st : Server K) (s : Settings)
      (username password : Bytes) (n : N)
      → IsReady st.pool
      → calls.printed ≡ true
      → auth_generate_token ext calls.token_random ≢ []
      → length (auth_generate_token ext calls.token_random) ≤ 63
      → (http.perform
          (post_request s
            (codes "/login")
            (http.print_strings (("username", username) ∷ ("password", password) ∷ []))
            none)
          n).1
        ≡ transfer_of print (handle_login ext cfg calls address body st).1
      → let sessions' = (handle_login ext cfg calls address body st).0.db.sessions in
        (((client_api_login http s username password n).1 ≡ none) × (sessions' ≡ st.db.sessions))
        ⊎ ((config : ClientConfig) × (row : Session) × ((client_api_login http s username password
                n).1
              ≡ some config)
            × (sessions' ≡ st.db.sessions ++ row ∷ [])
            × (config.session_token ≡ row.session_token)
            × (config.client_address ≡ row.allowed_ip)
            × (config.expires_at ≡ pos row.expires_at))
  unfolding client_api_login do_post send_json_response
  client_login_agrees address body st s username password n w printed given short sent =
      elim (handle_login_outcome ext laws cfg calls address body st w) [
        | inl (same, next, g, bad) ↦
            inl (rw (client_api_login, do_post, sent, read_refused http print _ bad) refl, same)
        | inr (json, acc, free, parsed, authentic, room, (j, lo, hi, g, added, next, told)) ↦
            let fields =
              login_fields ext cfg calls (auth_generate_token ext calls.token_random)
                (auth_generate_keypair ext calls.key_random).1
                (address_text ext.net 32 (st.pool.pool_start + j)) st.server_pubkey
                (calls.expiry_time + cfg.session_default_ttl_seconds) in
            let (token, ip, expiry) =
              read_login ext cfg calls (auth_generate_token ext calls.token_random)
                (auth_generate_keypair ext calls.key_random).1
                (address_text ext.net 32 (st.pool.pool_start + j)) st.server_pubkey
                (calls.expiry_time + cfg.session_default_ttl_seconds) in
            let whole = token ∙ take_all 63 (auth_generate_token ext calls.token_random) short in
            inr (
              config_of (object_of fields),
              _,
              login_answered http print wire s username password n fields
                  (sent ∙ ap (transfer_of print) (told ∙ send_printed calls fields printed))
                  (λ empty. given (sym whole ∙ empty)),
              added,
              whole,
              ip
                  ∙ take_all 63 (address_text ext.net 32 (st.pool.pool_start + j))
                      (omega (arith, length-address ext.net (st.pool.pool_start + j))),
              expiry,
            )
      ]
