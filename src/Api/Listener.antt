-- ===== src/Api/Listener.antt =====
-- server/src/api_handlers.c: how api_start comes to its listener. The caching of the public key,
-- with which it begins, is part of the state in which the daemon starts to serve.
use wg_auth.Base.{
  ℕ, ◌≡◌, ◌⊎◌, ◌≤◌, refl, inl, inr, Bool, true, [], ◌∷◌, Option, none, some, some_injective, Bytes,
  Bool-cases, Option-cases, ltb, if◌then◌else◌, length, arith,
}
use wg_auth.Config.{ServerConfig}

-- What MHD_start_daemon is asked for: the key, the certificate and the port; or the port alone.
pub data Listener : Type 0 where
  tls : Bytes → Bytes → ℕ → Listener
  plain : ℕ → Listener

-- What fopen, fread and malloc make of the file at a path: its contents, and whether there is
-- memory.
abbrev pub Files : Type 0
Files = Bytes → Option Bytes × Bool

abbrev pub max_file_size : ℕ
max_file_size = 1048576

unfoldable pub read_file_to_string : Option Bytes × Bool → Option Bytes
read_file_to_string (none, memory) = none
read_file_to_string (some contents, memory) =
    if ltb max_file_size (length contents) then none else if memory then some contents else none

-- tls_cert_pem or tls_key_pem; they are read only where both paths are configured.
unfoldable pub pem_of : Files → Bytes → Bytes → Option Bytes
pem_of files [] other = none
pem_of files (c ∷ path) [] = none
pem_of files (c ∷ path) (d ∷ other) = read_file_to_string (files (c ∷ path))

unfoldable pub listener_of : ℕ → Option Bytes → Option Bytes → Listener
listener_of port none key = plain port
listener_of port (some cert) none = plain port
listener_of port (some cert) (some key) = tls key cert port

-- `none` is the -1.
unfoldable pub api_start : ServerConfig → Files → (Listener → Bool) → Option Listener
api_start cfg files starts =
    let listener =
      listener_of cfg.api_listen_port (pem_of files cfg.tls_cert cfg.tls_key)
        (pem_of files cfg.tls_key cfg.tls_cert) in
    if starts listener then some listener else none

read_file_to_string_sound :
    (r : Option Bytes × Bool) (pem : Bytes)
    → read_file_to_string r ≡ some pem
    → (r ≡ (some pem, true)) × (length pem ≤ max_file_size)
unfolding read_file_to_string
read_file_to_string_sound (none, memory) pem e = cc
read_file_to_string_sound (some contents, memory) pem e =
    elim (Bool-cases (ltb max_file_size (length contents))) [
      | inl large ↦ cc (rw (read_file_to_string, large) at e)
      | inr fits ↦ elim (Bool-cases memory) [
        | inr full ↦ cc (rw (read_file_to_string, fits, full) at e)
        | inl there ↦
            let same = some_injective (rw (read_file_to_string, fits, there) at e) in
            (rw (there, same) refl, rw (← same) (ground (arith, fits)))
      ]
    ]

-- Why a file is not used: its path or that of the other is empty, or it cannot be read.
abbrev pub Unused : Files → Bytes → Bytes → Type 0
Unused files path other = (path ≡ []) ⊎ ((other ≡ []) ⊎ (read_file_to_string (files path) ≡ none))

pem_of_cases :
    (files : Files) (path other : Bytes)
    → ((pem_of files path other ≡ none) × Unused files path other)
      ⊎ ((pem : Bytes) × (pem_of files path other ≡ some pem)
          × (files path ≡ (some pem, true))
          × (length pem ≤ max_file_size))
unfolding pem_of
pem_of_cases files [] other = inl (refl, inl refl)
pem_of_cases files (c ∷ path) [] = inl (refl, inr (inl refl))
pem_of_cases files (c ∷ path) (d ∷ other) =
    elim (Option-cases (read_file_to_string (files (c ∷ path)))) [
      | inl bad ↦ inl (bad, inr (inr bad))
      | inr (pem, good) ↦
          let (same, small) = read_file_to_string_sound (files (c ∷ path)) pem good in
          inr (pem, good, same, small)
    ]

-- The listener that api_start ends with.
pub data Serves (cfg : ServerConfig) (files : Files) : Option Listener → Type 0 where
  stopped : Serves cfg files none
  over_tls :
      (cert key : Bytes)
      → files cfg.tls_cert ≡ (some cert, true)
      → files cfg.tls_key ≡ (some key, true)
      → length cert ≤ max_file_size
      → length key ≤ max_file_size
      → Serves cfg files (some (tls key cert cfg.api_listen_port))
  in_the_open :
      Unused files cfg.tls_cert cfg.tls_key ⊎ Unused files cfg.tls_key cfg.tls_cert
      → Serves cfg files (some (plain cfg.api_listen_port))

listener_of-Serves :
    (cfg : ServerConfig) (files : Files)
    → Serves cfg files (
        some (
          listener_of cfg.api_listen_port
            (pem_of files cfg.tls_cert cfg.tls_key)
            (pem_of files cfg.tls_key cfg.tls_cert)))
unfolding listener_of
listener_of-Serves cfg files = elim (pem_of_cases files cfg.tls_cert cfg.tls_key) [
  | inl (bad, why) ↦ rw (bad, listener_of) (in_the_open (inl why))
  | inr (cert, good, same, small) ↦ elim (pem_of_cases files cfg.tls_key cfg.tls_cert) [
    | inl (bad, why) ↦ rw (good, bad, listener_of) (in_the_open (inr why))
    | inr (key, good', same', small') ↦
        rw (good, good', listener_of) (over_tls cert key same same' small small')
  ]
]

-- api_start either fails, or serves TLS on the configured port with the contents of the configured
-- certificate and key, each of 1 MB at most; or it serves plain HTTP there, and then one of the two
-- paths is not configured or one of the two files could not be read.
pub api_start-Serves :
    (cfg : ServerConfig) (files : Files) (starts : Listener → Bool)
    → Serves cfg files (api_start cfg files starts)
unfolding api_start
api_start-Serves cfg files starts =
    let listener =
      listener_of cfg.api_listen_port (pem_of files cfg.tls_cert cfg.tls_key)
        (pem_of files cfg.tls_key cfg.tls_cert) in
    elim (Bool-cases (starts listener)) [
      | inl up ↦ rw (api_start, up) (listener_of-Serves cfg files)
      | inr down ↦ rw (api_start, down) stopped
    ]
