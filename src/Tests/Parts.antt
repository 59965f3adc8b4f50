-- ===== src/Tests/Parts.antt =====
-- The address pool, the rate limiter, the tables, the request body and the keys, at concrete
-- values.
use wg_auth.Base.{
  ℕ, ◌<◌, ◌≡◌, ◌⊎◌, ◌||◌, refl, true, false, [], ◌∷◌, none, some, Bytes, codes, replicate, success,
  failure, arith, ◌==◌,
}
use wg_auth.Db.Tokens.{db_create_session-db_get_session_by_token}
use wg_auth.Db.{runs, new_session, read_session, db_create_session, db_get_session_by_token}
use wg_auth.IpPool.Allocation.{Allocated, ip_pool_allocate-Allocated}
use wg_auth.IpPool.Bitmap.{is_used}
use wg_auth.IpPool.Shape.{IsReady, ip_pool_init-IsReady}
use wg_auth.IpPool.{blank, ip_pool_allocate}
use wg_auth.RateLimit.Counting.{record_all, Counts, limited_by_count, check_unlimits_neighbour}
use wg_auth.RateLimit.Slots.{IsForeign, other_addresses_kept}
use wg_auth.RateLimit.{
  Table, blank_table, write, ip_hash, hash_from, check_rate_limit, check_from, judge,
  record_login_failure,
}
use wg_auth.Base.{str_eq}
use wg_auth.Tests.Pools.{pool0, made0, ready0}
use wg_auth.Tests.World.{net, net-laws, cfg, one_account}

ip_pool_init-IsReady_example :
    IsReady pool0 × ((i : ℕ) → i < 16 → is_used (1 ∷ 128 ∷ []) i ≡ ((i == 0) || (i == 15)))
ip_pool_init-IsReady_example =
    ip_pool_init-IsReady net net-laws cfg.ip_pool_cidr [] blank pool0 made0

ip_pool_allocate-Allocated_example : Allocated net 32 pool0 (ip_pool_allocate net 32 pool0)
ip_pool_allocate-Allocated_example = ip_pool_allocate-Allocated net 32 pool0 ready0

-- Two addresses whose hashes are one.
abbrev near : Bytes
near = codes "10.0.1.12"

abbrev far : Bytes
far = codes "10.0.0.40"

limited_by_count_example :
    (check_rate_limit 120 near (record_all near (100 ∷ 101 ∷ 102 ∷ 103 ∷ 104 ∷ []) blank_table)).0
    ≡ true
limited_by_count_example =
    limited_by_count near refl (omega arith) 100 120 (101 ∷ 102 ∷ 103 ∷ 104 ∷ []) blank_table refl
      (omega arith, (omega arith, (omega arith, (omega arith, tt)))) (omega arith)

-- One old failure of `near`, and five later ones of `far` in the slot behind.
abbrev crowded : Table
crowded =
    write
      (write blank_table 724 (record { ip = near; fail_count = 1; first_fail = 0; last_fail = 0 }))
      725 (record { ip = far; fail_count = 5; first_fail = 500; last_fail = 510 })

near-Counts : Counts near 1 0 crowded
unfolding ip_hash hash_from write
near-Counts = record { owner = refl; failures = refl; since = refl }

far_limited : (check_rate_limit 700 far crowded).0 ≡ true
unfolding ip_hash hash_from write check_rate_limit check_from judge str_eq
far_limited = refl

same_hash : ip_hash near ≡ ip_hash far
unfolding ip_hash hash_from
same_hash = refl

check_unlimits_neighbour_example :
    (check_rate_limit 700 far (check_rate_limit 700 near crowded).1).0 ≡ false
check_unlimits_neighbour_example =
    check_unlimits_neighbour near far 1 0 700 crowded refl (omega arith) same_hash near-Counts
      (omega arith) far_limited

near-IsForeign : IsForeign far (crowded 724)
unfolding write str_eq
near-IsForeign = (refl, refl)

other_addresses_kept_example :
    (record_login_failure 700 far crowded 724 ≡ crowded 724)
    × ((check_rate_limit 700 far crowded).1 724 ≡ crowded 724)
other_addresses_kept_example = other_addresses_kept 700 far crowded 724 near-IsForeign

db_create_session-db_get_session_by_token_example :
    let (db', rc) =
      db_create_session runs 5 1 (codes "key") (codes "ip") (codes "token") 9 one_account in
    ((rc ≡ failure) × (db' ≡ one_account))
    ⊎ ((rc ≡ success)
        × (db_get_session_by_token runs (codes "token") one_account ≡ none)
        × (db_get_session_by_token runs (codes "token") db'
            ≡ some (read_session (new_session 1 5 1 (codes "key") (codes "ip") (codes "token") 9))))
db_create_session-db_get_session_by_token_example =
    db_create_session-db_get_session_by_token runs 5 1 (codes "key") (codes "ip") (codes "token") 9
      one_account

abbrev ones : Bytes
ones = replicate 32 255
