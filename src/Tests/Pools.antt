-- ===== src/Tests/Pools.antt =====
-- Runs of ip_pool.c.
use wg_auth.Base.{◌≡◌, refl, [], ◌∷◌, success}
use wg_auth.IpPool.{
  Pool, blank, ip_pool_init, parse_cidr, set_up, fresh_bitmap, prefix_of, network, excluded_range,
}
use wg_auth.IpPool.Bitmap.{is_used, test_bit, mark}
use wg_auth.IpPool.Shape.{IsReady, ip_pool_init-IsReady}
use wg_auth.Libc.{
  atoi, strtol, signed_part, convert, digits, skip_space, to_int, is_digit, is_space,
}
use wg_auth.Tests.World.{net, net-laws, read_address, cfg}
use wg_auth.Base.{before, after}

-- The pool of the small world: sixteen addresses, the first and the last marked.
abbrev pub pool0 : Pool
pool0 = record {
  pool_start = 160;
  pool_end = 175;
  exclude_start = 0;
  exclude_end = 0;
  bitmap = 1 ∷ 128 ∷ [];
  num_ips = 16;
}

pub made0 : ip_pool_init net cfg.ip_pool_cidr [] blank ≡ (pool0, success)
unfolding ip_pool_init parse_cidr set_up fresh_bitmap prefix_of network excluded_range atoi strtol
    signed_part convert digits skip_space to_int is_digit is_space before after read_address mark
    test_bit is_used
made0 = refl

pub ready0 : IsReady pool0
ready0 = (ip_pool_init-IsReady net net-laws _ _ blank pool0 made0).0
