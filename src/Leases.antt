-- ===== src/Leases.antt =====
-- The pool of ip_pool.c and the sessions of db.c together: an address is held by one session at
-- most, and an address that is held is marked in the bitmap.
pub mod Steps
use wg_auth.Base.{ℕ, ◌+◌, ◌<◌, ◌≤◌, ◌≡◌, true, Bytes}
use wg_auth.Db.Holders.{holders}
use wg_auth.Db.Rows.{UniqueIds, IdsBelow}
use wg_auth.Db.{Db}
use wg_auth.External.{Inet}
use wg_auth.IpPool.Bitmap.{is_used}
use wg_auth.IpPool.Shape.{IsReady}
use wg_auth.IpPool.{Pool, address_text}

-- The text of a usable address of the pool whose bit is set.
abbrev pub Backed : Inet → Pool → Bytes → Type 0
Backed net p ip =
    (j : ℕ) × (ip ≡ address_text net 32 (p.pool_start + j))
    × (0 < j)
    × (j + 1 < p.num_ips)
    × (is_used p.bitmap j ≡ true)

pub record IsExclusive (net : Inet) (p : Pool) (db : Db) : Type 0 where
  pub ready : IsReady p
  pub unique : UniqueIds db.sessions
  pub below : IdsBelow db.next_session db.sessions
  -- No address has two holders.
  pub once : (ip : Bytes) → holders ip db.sessions ≤ 1
  -- An address with a holder is marked.
  pub backed : (ip : Bytes) → 0 < holders ip db.sessions → Backed net p ip
