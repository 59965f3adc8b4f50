-- ===== src/RateLimit/Counting.antt =====
-- Counting: what an address may still do after some failures, as long as its home slot is its own.
use wg_auth.Base.{
  ℕ, ◌+◌, ◌-◌, ◌<◌, ◌≤◌, ◌≡◌, ap, true, false, List, [], ◌∷◌, Bytes, arith, str_eq_refl, leb,
  length, take_all, All,
}
use wg_auth.RateLimit.{
  Table, is_unused, counted, write, probe, ip_hash, record_from, record_login_failure, judge,
  check_from, check_rate_limit, max_fails_per_ip, fail_window_seconds,
}

-- A failure at each of these times, in order.
unfoldable pub record_all : Bytes → List ℕ → Table → Table
record_all ip [] t = t
record_all ip (now ∷ times) t = record_all ip times (record_login_failure now ip t)

-- The home slot of the address counts `k` failures since `start`.
pub record Counts (ip : Bytes) (k start : ℕ) (t : Table) : Type 0 where
  pub owner : (t (probe ip 0)).ip ≡ ip
  pub failures : (t (probe ip 0)).fail_count ≡ k
  pub since : (t (probe ip 0)).first_fail ≡ start

module _ (ip : Bytes) (named : is_unused ip ≡ false) (short : length ip ≤ 63) where
  record-Counts_first :
      (now : ℕ) (t : Table)
      → is_unused (t (probe ip 0)).ip ≡ true
      → Counts ip 1 now (record_login_failure now ip t)
  unfolding record_login_failure record_from write counted
  record-Counts_first now t unused = ground (arith, take_all 63 ip short)

  record-Counts :
      (now k start : ℕ) (t : Table)
      → now - start ≤ fail_window_seconds
      → Counts ip k start t
      → Counts ip (k + 1) start (record_login_failure now ip t)
  unfolding record_login_failure record_from write counted
  record-Counts now k start t recent c = ground (arith, str_eq_refl ip)

  check-Counts :
      (now k start : ℕ) (t : Table)
      → now - start ≤ fail_window_seconds
      → Counts ip k start t
      → (check_rate_limit now ip t).0 ≡ leb max_fails_per_ip k
  unfolding check_rate_limit check_from judge
  check-Counts now k start t recent c = ground (arith, str_eq_refl ip)

  record_all-Counts :
      (times : List ℕ) (k start : ℕ) (t : Table)
      → All (λ now. now - start ≤ fail_window_seconds) times
      → Counts ip k start t
      → Counts ip (k + length times) start (record_all ip times t)
  unfolding record_all
  record_all-Counts [] k start t recent c = ground arith
  record_all-Counts (now ∷ times) k start t recent c =
      let rest =
        record_all-Counts times (k + 1) start _ recent.1 (record-Counts now k start t recent.0 c) in
      ground (arith, rest)

  -- For an address text of 1 to 63 bytes: from a table in which the home slot of the address is not
  -- in use, record a failure at `start` and then at each of `times`, all within the window of the
  -- first: at any time within the window the address is limited exactly when five or more failures
  -- have been recorded.
  pub limited_by_count :
      (start now : ℕ) (times : List ℕ) (t : Table)
      → is_unused (t (probe ip 0)).ip ≡ true
      → All (λ u. u - start ≤ fail_window_seconds) times
      → now - start ≤ fail_window_seconds
      → (check_rate_limit now ip (record_all ip (start ∷ times) t)).0
        ≡ leb max_fails_per_ip (1 + length times)
  unfolding record_all
  limited_by_count start now times t unused recent h =
      check-Counts now (1 + length times) start _ h
        (record_all-Counts times 1 start _ recent (record-Counts_first start t unused))

  home_freed :
      (k start now : ℕ) (t : Table)
      → Counts ip k start t
      → fail_window_seconds < now - start
      → is_unused ((check_rate_limit now ip t).1 (probe ip 0)).ip ≡ true
  unfolding check_rate_limit check_from judge write
  home_freed k start now t c over = ground (arith, str_eq_refl ip)

  -- For an address text of 1 to 63 bytes whose home slot counts its failures: once the window of
  -- the first of them is over, the address is let through, its entry is given up, and its next
  -- failure counts as its first.
  pub window_expires :
      (k start now later : ℕ) (t : Table)
      → Counts ip k start t
      → fail_window_seconds < now - start
      → ((check_rate_limit now ip t).0 ≡ false)
        × Counts ip 1 later (record_login_failure later ip (check_rate_limit now ip t).1)
  unfolding check_rate_limit check_from judge write
  window_expires k start now later t c over = (
    ground (arith, str_eq_refl ip),
    record-Counts_first later _ (home_freed k start now t c over),
  )

-- The check stops at the first slot that is not in use: whatever entry the address has behind it,
-- full count and open window included, is not found.
pub check_stops_at_gap :
    (now : ℕ) (ip : Bytes) (t : Table)
    → is_unused (t (probe ip 0)).ip ≡ true
    → check_rate_limit now ip t ≡ (false, t)
unfolding check_rate_limit check_from
check_stops_at_gap now ip t unused = ground arith

-- Two addresses with one hash, the first of 1 to 63 bytes and counted in its home slot: once the
-- window of the first is over, a check of the first gives up their common home slot, and a second
-- address that was limited behind it is let through at the same time, within its own window.
pub check_unlimits_neighbour :
    (a b : Bytes) (k start now : ℕ) (t : Table)
    → is_unused a ≡ false
    → length a ≤ 63
    → ip_hash a ≡ ip_hash b
    → Counts a k start t
    → fail_window_seconds < now - start
    → (check_rate_limit now b t).0 ≡ true
    → (check_rate_limit now b (check_rate_limit now a t).1).0 ≡ false
check_unlimits_neighbour a b k start now t named short collide c over limited =
    ap (λ r. r.0) (check_stops_at_gap now b (check_rate_limit now a t).1 (rw (← same_home) freed))
  where
    same_home : probe a 0 ≡ probe b 0
    same_home = rw collide

    freed : is_unused ((check_rate_limit now a t).1 (probe a 0)).ip ≡ true
    freed = home_freed a named short k start now t c over
