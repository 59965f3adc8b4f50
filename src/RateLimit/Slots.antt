-- ===== src/RateLimit/Slots.antt =====
-- Other addresses: neither function touches the entry of an address other than its own.
use wg_auth.Base.{ℕ, zero, suc, ◌+◌, ◌≡◌, refl, false, Bytes, arith, str_eq}
use wg_auth.RateLimit.{
  Entry, Table, is_unused, write, record_from, record_login_failure, check_from, check_rate_limit,
}

-- The slot holds the entry of some other address.
abbrev pub IsForeign : Bytes → Entry → Type 0
IsForeign ip e = (is_unused e.ip ≡ false) × (str_eq e.ip ip ≡ false)

module _ (now : ℕ) (ip : Bytes) (t : Table) (slot : ℕ) (foreign : IsForeign ip (t slot)) where
  record_from_other : (n i : ℕ) → record_from n i now ip t slot ≡ t slot
  unfolding record_from write
  record_from_other zero i = refl
  record_from_other (suc n) i = ground (arith, record_from_other n (i + 1))

  check_from_other : (n i : ℕ) → (check_from n i now ip t).1 slot ≡ t slot
  unfolding check_from write
  check_from_other zero i = refl
  check_from_other (suc n) i = ground (arith, check_from_other n (i + 1))

-- Recording a failure of one address, or checking it, leaves the entries of all others as they are.
pub other_addresses_kept :
    (now : ℕ) (ip : Bytes) (t : Table) (slot : ℕ)
    → IsForeign ip (t slot)
    → (record_login_failure now ip t slot ≡ t slot) × ((check_rate_limit now ip t).1 slot ≡ t slot)
unfolding record_login_failure check_rate_limit
other_addresses_kept now ip t slot foreign =
    (record_from_other now ip t slot foreign 8 0, check_from_other now ip t slot foreign 8 0)
