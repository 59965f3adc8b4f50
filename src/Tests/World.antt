-- ===== src/Tests/World.antt =====
-- A small world: an address is written as one character, a secret is its own hash and its own text,
-- a request body is the password or the token, and the kernel is the list of the changes that it
-- was asked for.
use wg_auth.Base.{
  ℕ, ◌+◌, ◌-◌, ◌^◌, ◌<◌, ◌≡◌, true, ◌&&◌, List, [], ◌∷◌, Option, none, some, some_injective, Bytes,
  codes, str_eq, str_eq_refl, ◌≤◌, arith, ltb, leb, if◌then◌else◌, length, replicate, success, inl,
  inr, Bool-cases,
}
use wg_auth.Config.{ServerConfig, default_config}
use wg_auth.External.{Inet, InetLaws, PwhashLaws, WgDevice, WgLib, text, JsonObject, External}
use wg_auth.Db.{Db, Account, runs, empty}
use wg_auth.Server.{Calls}

-- The address `a` is the character `a + 48`.
unfoldable pub read_address : Bytes → Option ℕ
read_address [] = none
read_address (c ∷ []) = if leb 48 c && ltb (c - 48) (2 ^ 32) then some (c - 48) else none
read_address (c ∷ d ∷ rest) = none

abbrev pub net : Inet
net = record {
  pton = read_address;
  ntop = λ a. (a + 48) ∷ [];
  pton6 = λ s. none;
  ntop6 = λ a. (a + 48) ∷ [];
}

read_address_lt : (s : Bytes) (a : ℕ) → read_address s ≡ some a → a < 2 ^ 32
unfolding read_address
read_address_lt [] a e = cc
read_address_lt (c ∷ []) a e = elim (Bool-cases (leb 48 c && ltb (c - 48) (2 ^ 32))) [
  | inl ok ↦ let same = some_injective (rw (read_address, ok) at e) in ground (arith, same)
  | inr bad ↦ cc (rw (read_address, bad) at e)
]
read_address_lt (c ∷ d ∷ rest) a e = cc

pub net-laws : InetLaws net
unfolding read_address
net-laws = record {
  pton-ntop = λ a h. ground arith;
  pton_lt = read_address_lt;
  length-ntop = λ a h. omega arith;
  ntop-Lacks = λ a h. (omega arith, tt);
}

abbrev pub wg : WgLib (List WgDevice)
wg = record {
  wg_set_device = λ dev k. (dev ∷ k, success);
  wg_get_device = λ name k. none;
  wg_add_device = λ name k. k;
}

-- The members of a request body.
unfoldable pub members : Bytes → JsonObject
members body name =
    if str_eq (codes name) (codes "username") then some (text (codes "ann")) else some (text body)

abbrev pub ext : External (List WgDevice)
ext = record {
  net = net;
  wg = wg;
  pwhash_verify = str_eq;
  pwhash_str = λ password ops mem. if leb (length password) 127 then some password else none;
  opslimit_interactive = 2;
  memlimit_interactive = 67108864;
  scalarmult_base = λ key. (key, success);
  to_base64 = λ s. s;
  to_base64url = λ s. s;
  from_base64 = λ size s. if leb (length s) size then some s else none;
  parse_json = λ body. some (members body);
}

hash_is :
    (password hash : Bytes) (ops mem : ℕ)
    → ext.pwhash_str password ops mem ≡ some hash
    → (password ≡ hash) × (length password ≤ 127)
hash_is password hash ops mem e = elim (Bool-cases (leb (length password) 127)) [
  | inl short ↦ (some_injective (rw short at e), ground (arith, short))
  | inr long ↦ cc (rw long at e)
]

pub pwhash-laws : PwhashLaws ext
pwhash-laws = record {
  verified =
      λ password hash ops mem e. rw (← (hash_is password hash ops mem e).0) (str_eq_refl password);
  length_hash = λ password hash ops mem e.
      rw (← (hash_is password hash ops mem e).0) (hash_is password hash ops mem e).1;
}

-- Sixteen addresses from 160 on.
abbrev pub cfg : ServerConfig
cfg = record default_config { ip_pool_cidr = 208 ∷ codes "/28" }

abbrev pub ann : Account
ann = record {
  id = 1;
  username = codes "ann";
  password_hash = codes "secret";
  created_at = 0;
  disabled = 0;
}

abbrev pub one_account : Db
one_account = record empty { accounts = ann ∷ []; next_account = 2 }

-- All goes well, at one time, with this byte as the random generator's.
abbrev pub calls_at : ℕ → ℕ → Calls
calls_at now byte = record {
  limit_time = now;
  failure_time = now;
  count_time = now;
  insert_time = now;
  expiry_time = now;
  audit_time = now;
  check_time = now;
  select_run = runs;
  count_run = runs;
  insert_run = runs;
  update_run = runs;
  audit_run = runs;
  key_random = replicate 32 byte;
  psk_random = replicate 32 byte;
  token_random = replicate 32 byte;
  printed = true;
}
