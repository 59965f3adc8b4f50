-- ===== src/RateLimit.antt =====
-- The rate limiter of server/src/api_handlers.c: a table of 1024 entries, probed from the hash of
-- the address. The mutex makes each function one step; the time is its argument.
pub mod Slots
pub mod Counting
use wg_auth.Base.{
  ℕ, zero, suc, ◌+◌, ◌-◌, ◌*◌, ◌%◌, ◌^◌, Bool, true, false, ◌&&◌, ◌||◌, not, [], ◌∷◌, Bytes,
  strncpy, str_eq, ltb, leb, ◌==◌, if◌then◌else◌,
}

-- ip_fail_entry_t. An empty `ip` marks a slot that is not in use.
pub record Entry : Type 0 where
  pub ip : Bytes
  pub fail_count : ℕ
  pub first_fail : ℕ
  pub last_fail : ℕ

abbrev pub max_tracked_ips : ℕ
max_tracked_ips = 1024

abbrev pub max_fails_per_ip : ℕ
max_fails_per_ip = 5

abbrev pub fail_window_seconds : ℕ
fail_window_seconds = 600

-- fail_table, by the index of the slot. Every index that is used is taken modulo 1024.
abbrev pub Table : Type 0
Table = ℕ → Entry

abbrev pub blank_entry : Entry
blank_entry = record { ip = []; fail_count = 0; first_fail = 0; last_fail = 0 }

-- The static table is zeroed.
abbrev pub blank_table : Table
blank_table slot = blank_entry

unfoldable pub write : Table → ℕ → Entry → Table
write t slot e j = if j == slot then e else t j

-- `hash << 5` and both sums wrap at 2^32.
unfoldable pub hash_from : ℕ → Bytes → ℕ
hash_from hash [] = hash
hash_from hash (c ∷ ip) = hash_from ((hash * 32 + hash + c) % 2 ^ 32) ip

unfoldable pub ip_hash : Bytes → ℕ
unfolding hash_from
ip_hash ip = hash_from 5381 ip % max_tracked_ips

abbrev pub is_unused : Bytes → Bool
is_unused [] = true
is_unused (c ∷ ip) = false

-- now - first_fail > FAIL_WINDOW_SECONDS
abbrev pub window_over : ℕ → Entry → Bool
window_over now e = ltb fail_window_seconds (now - e.first_fail)

-- What record_login_failure writes to the slot that it stops at.
unfoldable pub counted : ℕ → Bytes → Entry → Entry
counted now ip e =
    if is_unused e.ip || window_over now e
    then record { ip = strncpy 64 ip; fail_count = 1; first_fail = now; last_fail = now }
    else record e { fail_count = e.fail_count + 1; last_fail = now }

-- The slot of round `i`.
abbrev pub probe : Bytes → ℕ → ℕ
probe ip i = (ip_hash ip + i) % max_tracked_ips

-- The probing loops, with `n` rounds left from round `i`.
unfoldable pub record_from : ℕ → ℕ → ℕ → Bytes → Table → Table
record_from zero i now ip t = t
record_from (suc n) i now ip t =
    let slot : ℕ = probe ip i in
    let next = record_from n (i + 1) now ip t in
    if is_unused (t slot).ip || str_eq (t slot).ip ip
    then write t slot (counted now ip (t slot))
    else next

unfoldable pub record_login_failure : ℕ → Bytes → Table → Table
record_login_failure now ip t = record_from 8 0 now ip t

-- What check_rate_limit returns on the entry of the address, and the entry that it leaves.
unfoldable pub judge : ℕ → Entry → Bool × Entry
judge now e =
    if window_over now e
    then (false, record e { ip = []; fail_count = 0 })
    else (leb max_fails_per_ip e.fail_count, e)

unfoldable pub check_from : ℕ → ℕ → ℕ → Bytes → Table → Bool × Table
check_from zero i now ip t = (false, t)
check_from (suc n) i now ip t =
    let slot : ℕ = probe ip i in
    let next = check_from n (i + 1) now ip t in
    if not (is_unused (t slot).ip) && str_eq (t slot).ip ip
    then (let (limited, e) = judge now (t slot) in (limited, write t slot e))
    else if is_unused (t slot).ip
    then (false, t)
    else next

unfoldable pub check_rate_limit : ℕ → Bytes → Table → Bool × Table
check_rate_limit now ip t = check_from 8 0 now ip t
