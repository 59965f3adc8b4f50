-- ===== src/Windows/WinHttp.antt =====
-- windows/client/src/win_http.cpp: one POST with a JSON body.
pub mod Handles
pub mod Reading
use wg_auth.Base.{
  ℕ, zero, suc, ◌+◌, Bool, true, false, List, [], ◌∷◌, ◌++◌, Option, none, some, Bytes, codes, ltb,
  ◌==◌, if◌then◌else◌, length,
}
use wg_auth.Windows.{Wide, UrlParts, WinHttpLib}

abbrev pub max_response_size : ℕ
max_response_size = 1048576

-- The text begins with the prefix.
unfoldable pub starts_with : Bytes → Bytes → Bool
starts_with [] s = true
starts_with (p ∷ prefix) [] = false
starts_with (p ∷ prefix) (c ∷ s) = let rest = starts_with prefix s in if p == c then rest else false

-- What the loop over the body ends with. `unread` stands for rounds that were not enough.
pub data Body : Type 0 where
  whole : Bytes → Body
  too_large : Body
  unread : Body

module _ {N : Type 0} (lib : WinHttpLib N) where
  unfoldable pub utf8_to_wide : Bytes → Wide
  utf8_to_wide [] = []
  utf8_to_wide (c ∷ str) = lib.multi_byte_to_wide_char (c ∷ str)

  -- The body after a call of WinHttpReadData.
  abbrev pub appended : Bytes → Option Bytes → Bytes
  appended body none = body
  appended body (some part) = body ++ part

  -- The do-while loop, with `rounds` left.
  unfoldable pub read_body : ℕ → Bytes → N → N × Body
  read_body zero body n = (n, unread)
  read_body (suc rounds) body n =
      let (n1, available) = lib.query_data_available n in
      elim available [
        | none ↦ (n1, whole body)
        | some size ↦
            let (n2, part) = lib.read_data size n1 in
            let body' = appended body part in
            let further = read_body rounds body' n2 in
            if size == 0
            then (n1, whole body)
            else if ltb max_response_size (length body')
            then (n2, too_large)
            else further
      ]

  abbrev pub close_all : N → N
  close_all n = lib.close_session (lib.close_connect (lib.close_request n))

  -- The reply, behind the loop.
  abbrev pub with_status : ℕ → Body → Option (ℕ × Bytes)
  with_status status_code (whole body) = some (status_code, body)
  with_status status_code too_large = none
  with_status status_code unread = none

  -- WinHttpReceiveResponse has answered.
  unfoldable pub received : ℕ → N × Bool → N × Option (ℕ × Bytes)
  received rounds (n, false) = (close_all n, none)
  received rounds (n, true) =
      let (n', body) = read_body rounds [] n in
      (close_all n', with_status (lib.query_status_code n) body)

  -- WinHttpSendRequest has answered.
  unfoldable pub sent : ℕ → N × Bool → N × Option (ℕ × Bytes)
  sent rounds (n, false) = (close_all n, none)
  sent rounds (n, true) = received rounds (lib.receive_response n)

  -- WinHttpOpenRequest has answered.
  unfoldable pub requested : ℕ → Bytes → Bool → N × Bool → N × Option (ℕ × Bytes)
  requested rounds json_body insecure (n, false) = (lib.close_session (lib.close_connect n), none)
  requested rounds json_body insecure (n, true) =
      sent rounds
        (lib.send_request json_body (if insecure then lib.ignore_certificate_errors n else n))

  -- WinHttpConnect has answered.
  unfoldable pub connected : ℕ → Wide → Bool → Bytes → Bool → N × Bool → N × Option (ℕ × Bytes)
  connected rounds path is_https json_body insecure (n, false) = (lib.close_session n, none)
  connected rounds path is_https json_body insecure (n, true) =
      requested rounds json_body insecure (lib.open_request path is_https n)

  -- WinHttpOpen has answered.
  unfoldable pub opened : ℕ → UrlParts → Bool → Bytes → Bool → N × Bool → N × Option (ℕ × Bytes)
  opened rounds parts is_https json_body insecure (n, false) = (n, none)
  opened rounds parts is_https json_body insecure (n, true) =
      connected rounds parts.path is_https json_body insecure (lib.connect parts.host parts.port n)

  -- The status code and the body; `none` for false. The loop over the body has `rounds` rounds.
  unfoldable pub post_json : ℕ → Bytes → Bytes → Bool → N → N × Option (ℕ × Bytes)
  post_json rounds url_in json_body insecure n = elim (lib.crack_url (utf8_to_wide url_in)) [
    | none ↦ (n, none)
    | some parts ↦
        opened rounds parts (starts_with (codes "https://") url_in) json_body insecure
          (lib.open_session n)
  ]
