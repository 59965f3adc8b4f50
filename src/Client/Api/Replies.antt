-- ===== src/Client/Api/Replies.antt =====
-- What the client takes a response for, and how it reads the server's reply to a login.
use wg_auth.Base.{
  ◌<◌, ◌≡◌, ◌≢◌, refl, sym, subst, inl, inr, ◌&&◌, [], ◌∷◌, Option, none, some, Bytes, codes,
  Bool-cases, Option-cases, arith, ltb, ◌==◌, length,
}
use wg_auth.Client.Api.{
  Settings, ClientConfig, write_parts, post_request, read_response, do_post, config_of, with_token,
  client_api_login,
}
use wg_auth.Client.{Response, Transfer, Http}
use wg_auth.Config.Load.{to_nul}

module _ {N : Type 0} (http : Http N) where
  -- The transfer ended with 200 and a body, which parses to this object.
  pub record Accepted (transfer : Option Transfer) (obj : Response) : Type 0 where
    pub ended : Transfer
    pub mem : Bytes
    pub performed : transfer ≡ some ended
    pub ok : ended.http_code ≡ 200
    pub written : write_parts ended.parts [] ≡ some mem
    pub nonempty : 0 < length mem
    pub parsed : http.parse_json (to_nul mem) ≡ some obj

  read_response_sound :
      (transfer : Option Transfer) (obj : Response)
      → read_response http transfer ≡ some obj
      → Accepted transfer obj
  unfolding read_response
  read_response_sound none obj e = cc
  read_response_sound (some t) obj e = elim (Option-cases (write_parts t.parts [])) [
    | inl lost ↦ cc (rw (read_response, lost) at e)
    | inr (mem, written) ↦ elim (Bool-cases (t.http_code == 200 && ltb 0 (length mem))) [
      | inr refused ↦ cc (rw (read_response, written, refused) at e)
      | inl fine ↦ record {
        ended = t;
        mem = mem;
        performed = refl;
        ok = ground (arith, fine);
        written = written;
        nonempty = ground (arith, fine);
        parsed = rw (read_response, written, fine) at e;
      }
    ]
  ]

  with_token_sound :
      (config found : ClientConfig)
      → with_token config ≡ some found
      → (config ≡ found) × (config.session_token ≢ [])
  with_token_sound config found e = whole config.session_token refl e
    where
      whole :
          (token : Bytes)
          → config.session_token ≡ token
          → elim token as (λ t. Option ClientConfig) [ [] ↦ none | c ∷ rest ↦ some config ]
            ≡ some found
          → (config ≡ found) × (config.session_token ≢ [])
      whole [] at e' = cc
      whole (c ∷ rest) at e' = (cc, λ empty. cc)

  -- client_api_login gives a configuration only from a response with status 200 whose body parses
  -- to an object with a session token that is not empty, and then it is what that object says.
  pub client_api_login_sound :
      (s : Settings) (username password : Bytes) (n : N) (config : ClientConfig)
      → (client_api_login http s username password n).1 ≡ some config
      → let body = http.print_strings (("username", username) ∷ ("password", password) ∷ []) in
        (obj : Response) × Accepted
          (http.perform (post_request s (codes "/login") body none) n).1
          obj
        × (config ≡ config_of obj)
        × (config.session_token ≢ [])
  unfolding client_api_login do_post
  client_api_login_sound s username password n config e =
      let transfer =
        (http.perform
          (post_request s (codes "/login")
            (http.print_strings (("username", username) ∷ ("password", password) ∷ [])) none)
          n).1 in
      elim (Option-cases (read_response http transfer)) [
        | inl refused ↦ cc (rw (client_api_login, do_post, refused) at e)
        | inr (obj, read) ↦
            let (same, given) =
              with_token_sound (config_of obj) config (rw (client_api_login, do_post, read) at e) in
            (
              obj,
              read_response_sound transfer obj read,
              sym same,
              subst (λ c. c.session_token ≢ []) same given,
            )
      ]
