-- ===== src/Windows/WinHttp/Reading.antt =====
-- The size of the bodies that PostJson takes.
use wg_auth.Base.{
  ℕ, zero, suc, ◌≤◌, ◌≡◌, subst, Bool, true, false, [], Option, none, some, Bytes, Bool-cases,
  Option-cases, inl, inr, ltb, ◌==◌, length, arith, codes,
}
use wg_auth.Windows.WinHttp.{
  Body, whole, too_large, unread, max_response_size, appended, read_body, with_status, received,
  sent, requested, connected, opened, post_json, starts_with, utf8_to_wide,
}
use wg_auth.Windows.{Wide, UrlParts, WinHttpLib}

-- A body that the loop takes has 1 MB at most.
abbrev Small : Body → Type 0
Small (whole body) = length body ≤ max_response_size
Small too_large = Unit {0}
Small unread = Unit {0}

abbrev SmallReply : Option (ℕ × Bytes) → Type 0
SmallReply none = Unit {0}
SmallReply (some (code, body)) = length body ≤ max_response_size

module _ {N : Type 0} (lib : WinHttpLib N) where
  with_status-SmallReply :
      (code : ℕ) (body : Body) → Small body → SmallReply (with_status lib code body)
  with_status-SmallReply code (whole body) h = h
  with_status-SmallReply code too_large h = tt
  with_status-SmallReply code unread h = tt

  read_body-Small :
      (rounds : ℕ) (body : Bytes) (n : N)
      → length body ≤ max_response_size
      → Small (read_body lib rounds body n).1
  unfolding read_body
  read_body-Small zero body n small = tt
  read_body-Small (suc rounds) body n small = elim (Option-cases (lib.query_data_available n).1) [
    | inl failed ↦ rw (read_body, failed) small
    | inr (size, there) ↦
        let n1 = (lib.query_data_available n).0 in
        let body' = appended lib body (lib.read_data size n1).1 in
        elim (Bool-cases (size == 0)) [
          | inl done ↦ rw (read_body, there, done) small
          | inr more ↦ elim (Bool-cases (ltb max_response_size (length body'))) [
            | inl large ↦ rw (read_body, there, more, large) tt
            | inr fits ↦
                rw (read_body, there, more, fits)
                  (read_body-Small rounds body' (lib.read_data size n1).0 (ground (arith, fits)))
          ]
        ]
  ]

  received-SmallReply : (rounds : ℕ) (r : N × Bool) → SmallReply (received lib rounds r).1
  unfolding received
  received-SmallReply rounds (n, false) = tt
  received-SmallReply rounds (n, true) =
      with_status-SmallReply _ _ (read_body-Small rounds [] n (omega arith))

  sent-SmallReply : (rounds : ℕ) (r : N × Bool) → SmallReply (sent lib rounds r).1
  unfolding sent
  sent-SmallReply rounds (n, false) = tt
  sent-SmallReply rounds (n, true) = received-SmallReply rounds (lib.receive_response n)

  requested-SmallReply :
      (rounds : ℕ) (json_body : Bytes) (insecure : Bool) (r : N × Bool)
      → SmallReply (requested lib rounds json_body insecure r).1
  unfolding requested
  requested-SmallReply rounds json_body insecure (n, false) = tt
  requested-SmallReply rounds json_body insecure (n, true) = sent-SmallReply rounds _

  connected-SmallReply :
      (rounds : ℕ) (path : Wide) (is_https : Bool) (json_body : Bytes) (insecure : Bool)
      (r : N × Bool)
      → SmallReply (connected lib rounds path is_https json_body insecure r).1
  unfolding connected
  connected-SmallReply rounds path is_https json_body insecure (n, false) = tt
  connected-SmallReply rounds path is_https json_body insecure (n, true) =
      requested-SmallReply rounds json_body insecure _

  opened-SmallReply :
      (rounds : ℕ) (parts : UrlParts) (is_https : Bool) (json_body : Bytes) (insecure : Bool)
      (r : N × Bool)
      → SmallReply (opened lib rounds parts is_https json_body insecure r).1
  unfolding opened
  opened-SmallReply rounds parts is_https json_body insecure (n, false) = tt
  opened-SmallReply rounds parts is_https json_body insecure (n, true) =
      connected-SmallReply rounds parts.path is_https json_body insecure _

  post_json-SmallReply :
      (rounds : ℕ) (url_in json_body : Bytes) (insecure : Bool) (n : N)
      → SmallReply (post_json lib rounds url_in json_body insecure n).1
  unfolding post_json
  post_json-SmallReply rounds url_in json_body insecure n =
      elim (Option-cases (lib.crack_url (utf8_to_wide lib url_in))) [
        | inl bad ↦ rw (post_json, bad) tt
        | inr (parts, good) ↦
            rw (post_json, good)
              (opened-SmallReply rounds parts (starts_with (codes "https://") url_in) json_body
                insecure (lib.open_session n))
      ]

  -- Whatever WinHTTP answers, a response that PostJson reports has a body of 1 MB at most.
  pub post_json_bounded :
      (rounds : ℕ) (url_in json_body : Bytes) (insecure : Bool) (n : N) (code : ℕ) (body : Bytes)
      → (post_json lib rounds url_in json_body insecure n).1 ≡ some (code, body)
      → length body ≤ max_response_size
  post_json_bounded rounds url_in json_body insecure n code body e =
      subst SmallReply e (post_json-SmallReply rounds url_in json_body insecure n)
