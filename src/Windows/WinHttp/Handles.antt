-- ===== src/Windows/WinHttp/Handles.antt =====
-- The handles that PostJson opens, and their closing.
use wg_auth.Base.{
  ℕ, zero, suc, ◌≡◌, refl, ◌∙◌, Bool, true, false, [], Bytes, Bool-cases, Option-cases, inl, inr,
  ltb, ◌==◌, if◌then◌else◌, length, codes,
}
use wg_auth.Windows.WinHttp.{
  max_response_size, starts_with, utf8_to_wide, appended, read_body, close_all, received, sent,
  requested, connected, opened, post_json,
}
use wg_auth.Windows.{Wide, UrlParts, WinHttpLib}

-- Which handles are open: none; the session's; that and the connection's; or all three.
pub data Open : Type 0 where
  closed with_session with_connection with_request : Open

module _ {N : Type 0} (lib : WinHttpLib N) (handles : N → Open) where
  -- A call that opens a handle has opened it where it succeeds.
  abbrev OpensTo : Open → N → N × Bool → Type 0
  OpensTo more n (n', false) = handles n' ≡ handles n
  OpensTo more n (n', true) = handles n' ≡ more

  -- Each handle is opened upon the one before; each that is open can be closed, the last first. Of
  -- the closing of a handle that is not open nothing is said. The other calls leave the handles.
  pub record HandleLaws : Type 0 where
    pub session : (n : N) → handles n ≡ closed → OpensTo with_session n (lib.open_session n)
    pub connection :
        (host : Wide) (port : ℕ) (n : N)
        → handles n ≡ with_session
        → OpensTo with_connection n (lib.connect host port n)
    pub request :
        (path : Wide) (secure : Bool) (n : N)
        → handles n ≡ with_connection
        → OpensTo with_request n (lib.open_request path secure n)
    pub flags : (n : N) → handles (lib.ignore_certificate_errors n) ≡ handles n
    pub sends : (body : Bytes) (n : N) → handles (lib.send_request body n).0 ≡ handles n
    pub receives : (n : N) → handles (lib.receive_response n).0 ≡ handles n
    pub queries : (n : N) → handles (lib.query_data_available n).0 ≡ handles n
    pub reads : (size : ℕ) (n : N) → handles (lib.read_data size n).0 ≡ handles n
    pub request_closed :
        (n : N) → handles n ≡ with_request → handles (lib.close_request n) ≡ with_connection
    pub connection_closed :
        (n : N) → handles n ≡ with_connection → handles (lib.close_connect n) ≡ with_session
    pub session_closed : (n : N) → handles n ≡ with_session → handles (lib.close_session n) ≡ closed

  module _ (laws : HandleLaws) where
    read_body-handles :
        (rounds : ℕ) (body : Bytes) (n : N) → handles (read_body lib rounds body n).0 ≡ handles n
    unfolding read_body
    read_body-handles zero body n = refl
    read_body-handles (suc rounds) body n = elim (Option-cases (lib.query_data_available n).1) [
      | inl failed ↦ rw (read_body, failed) (laws.queries n)
      | inr (size, there) ↦
          let n1 = (lib.query_data_available n).0 in
          let body' = appended lib body (lib.read_data size n1).1 in
          let one = laws.reads size n1 ∙ laws.queries n in
          elim (Bool-cases (size == 0)) [
            | inl done ↦ rw (read_body, there, done) (laws.queries n)
            | inr more ↦ elim (Bool-cases (ltb max_response_size (length body'))) [
              | inl large ↦ rw (read_body, there, more, large) one
              | inr small ↦
                  rw (read_body, there, more, small)
                    (read_body-handles rounds body' (lib.read_data size n1).0 ∙ one)
            ]
          ]
    ]

    close_all-handles : (n : N) → handles n ≡ with_request → handles (close_all lib n) ≡ closed
    close_all-handles n h =
        laws.session_closed _ (laws.connection_closed _ (laws.request_closed n h))

    received-handles :
        (rounds : ℕ) (r : N × Bool)
        → handles r.0 ≡ with_request
        → handles (received lib rounds r).0 ≡ closed
    unfolding received
    received-handles rounds (n, false) h = close_all-handles n h
    received-handles rounds (n, true) h = close_all-handles _ (read_body-handles rounds [] n ∙ h)

    sent-handles :
        (rounds : ℕ) (r : N × Bool)
        → handles r.0 ≡ with_request
        → handles (sent lib rounds r).0 ≡ closed
    unfolding sent
    sent-handles rounds (n, false) h = close_all-handles n h
    sent-handles rounds (n, true) h =
        received-handles rounds (lib.receive_response n) (laws.receives n ∙ h)

    flagged :
        (insecure : Bool) (n : N)
        → handles (if insecure then lib.ignore_certificate_errors n else n) ≡ handles n
    flagged true n = laws.flags n
    flagged false n = refl

    requested-handles :
        (rounds : ℕ) (json_body : Bytes) (insecure : Bool) (n : N) (r : N × Bool)
        → handles n ≡ with_connection
        → OpensTo with_request n r
        → handles (requested lib rounds json_body insecure r).0 ≡ closed
    unfolding requested
    requested-handles rounds json_body insecure n (n', false) h o =
        laws.session_closed _ (laws.connection_closed n' (o ∙ h))
    requested-handles rounds json_body insecure n (n', true) h o =
        sent-handles rounds _ (laws.sends json_body _ ∙ flagged insecure n' ∙ o)

    connected-handles :
        (rounds : ℕ) (path : Wide) (is_https : Bool) (json_body : Bytes) (insecure : Bool) (n : N)
        (r : N × Bool)
        → handles n ≡ with_session
        → OpensTo with_connection n r
        → handles (connected lib rounds path is_https json_body insecure r).0 ≡ closed
    unfolding connected
    connected-handles rounds path is_https json_body insecure n (n', false) h o =
        laws.session_closed n' (o ∙ h)
    connected-handles rounds path is_https json_body insecure n (n', true) h o =
        requested-handles rounds json_body insecure n' _ o (laws.request path is_https n' o)

    opened-handles :
        (rounds : ℕ) (parts : UrlParts) (is_https : Bool) (json_body : Bytes) (insecure : Bool)
        (n : N) (r : N × Bool)
        → handles n ≡ closed
        → OpensTo with_session n r
        → handles (opened lib rounds parts is_https json_body insecure r).0 ≡ closed
    unfolding opened
    opened-handles rounds parts is_https json_body insecure n (n', false) h o = o ∙ h
    opened-handles rounds parts is_https json_body insecure n (n', true) h o =
        connected-handles rounds parts.path is_https json_body insecure n' _ o
          (laws.connection parts.host parts.port n' o)

    -- Where each handle can be closed while it is open, and nothing is known of closing one that is
    -- not, PostJson closes the handle of the session, that of the connection and that of the
    -- request on every way out on which it has opened them.
    pub post_json-handles :
        (rounds : ℕ) (url_in json_body : Bytes) (insecure : Bool) (n : N)
        → handles n ≡ closed
        → handles (post_json lib rounds url_in json_body insecure n).0 ≡ closed
    unfolding post_json
    post_json-handles rounds url_in json_body insecure n h =
        elim (Option-cases (lib.crack_url (utf8_to_wide lib url_in))) [
          | inl bad ↦ rw (post_json, bad) h
          | inr (parts, good) ↦
              rw (post_json, good)
                (opened-handles rounds parts (starts_with (codes "https://") url_in) json_body
                  insecure n (lib.open_session n) h (laws.session n h))
        ]
