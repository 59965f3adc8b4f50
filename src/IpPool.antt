-- ===== src/IpPool.antt =====
-- server/src/ip_pool.c. The file's static variables are a record that each function takes and
-- returns; its mutex makes each of them one step.
pub mod Bitmap
pub mod Shape
pub mod Allocation
pub mod Return
pub mod Allocator
use wg_auth.Base.{
  ℕ, zero, suc, ◌+◌, ◌-◌, ◌*◌, ◌/◌, ◌%◌, ◌^◌, Bool, ◌&&◌, ◌||◌, not, List, [], ◌∷◌, ◌++◌, Option,
  none, some, Bytes, codes, strncpy, before, after, ltb, leb, ◌==◌, if◌then◌else◌, replicate, Rc,
  success, failure,
}
use wg_auth.External.{Inet}
use wg_auth.Libc.{ℤ, pos, atoi, within, to_ℕ}
use Bitmap.{is_used, mark, clear}

pub record Pool : Type 0 where
  pub pool_start : ℕ
  pub pool_end : ℕ
  pub exclude_start : ℕ
  pub exclude_end : ℕ
  -- Empty stands for NULL.
  pub bitmap : List ℕ
  pub num_ips : ℕ

-- The statics before ip_pool_init.
abbrev pub blank : Pool
blank = record {
  pool_start = 0;
  pool_end = 0;
  exclude_start = 0;
  exclude_end = 0;
  bitmap = [];
  num_ips = 0;
}

abbrev pub max_pool_size : ℕ
max_pool_size = 1048576

-- The prefix length behind the slash; 32 with no slash.
unfoldable pub prefix_of : Bytes → ℤ
unfolding after
prefix_of text = elim (after b'/' text) [ none ↦ pos 32 | some digits ↦ atoi digits ]

-- start = ip & mask and end = start | ~mask, where ~mask is 2^(32 - prefix) - 1.
unfoldable pub network : ℕ → ℕ → ℕ × ℕ
network ip prefix =
    let size : ℕ = 2 ^ (32 - prefix) in
    let start : ℕ = ip - ip % size in (start, start + (size - 1))

module _ (net : Inet) where
  unfoldable pub parse_cidr : Bytes → Option (ℕ × ℕ)
  parse_cidr cidr =
      let text = strncpy 64 cidr in
      let prefix = prefix_of text in
      if not (within 1 30 prefix) then none else elim (net.pton (before b'/' text)) [
        | none ↦ none
        | some ip ↦ some (network ip (to_ℕ prefix))
      ]

  -- The excluded range; (0, 0) where there is none, or where it does not parse.
  unfoldable pub excluded_range : Bytes → ℕ × ℕ
  excluded_range [] = (0, 0)
  excluded_range (c ∷ text) = elim (parse_cidr (c ∷ text)) [ none ↦ (0, 0) | some range ↦ range ]

-- The bitmap with the network and the broadcast address marked.
unfoldable pub fresh_bitmap : ℕ → List ℕ
fresh_bitmap num_ips = mark (mark (replicate ((num_ips + 7) / 8) 0) 0) (num_ips - 1)

-- The end of ip_pool_init, behind the parsing.
unfoldable pub set_up : ℕ × ℕ → ℕ × ℕ → Pool → Pool × Rc
set_up (start, last) (ex_start, ex_last) p =
    let n : ℕ = (last + 2 ^ 32 - start + 1) % 2 ^ 32 in
    let ranged = record p {
      pool_start = start;
      pool_end = last;
      exclude_start = ex_start;
      exclude_end = ex_last;
      num_ips = n;
    } in
    if leb n 2
    then (ranged, failure)
    else if n == 0 || ltb max_pool_size n
    then (ranged, failure)
    else (record ranged { bitmap = fresh_bitmap n }, success)

unfoldable pub is_excluded : Pool → ℕ → Bool
is_excluded p ip = leb p.exclude_start ip && leb ip p.exclude_end

abbrev pub mark_index : Pool → ℕ → Pool
mark_index p i = record p { bitmap = mark p.bitmap i }

-- The loop of ip_pool_allocate, with `n` rounds left from index `i`.
unfoldable pub scan : ℕ → ℕ → Pool → Pool × Option ℕ
scan zero i p = (p, none)
scan (suc n) i p =
    let skipped = scan n (i + 1) p in
    let excluded = scan n (i + 1) (mark_index p i) in
    if is_used p.bitmap i
    then skipped
    else if is_excluded p (p.pool_start + i)
    then excluded
    else (mark_index p i, some (p.pool_start + i))

module _ (net : Inet) where
  unfoldable pub ip_pool_init : Bytes → Bytes → Pool → Pool × Rc
  ip_pool_init cidr exclude p = elim (parse_cidr net cidr) [
    | none ↦ (p, failure)
    | some range ↦ set_up range (excluded_range net exclude) p
  ]

  -- snprintf(out_ip, max_len, "%s/32", …)
  unfoldable pub address_text : ℕ → ℕ → Bytes
  address_text max_len ip = strncpy max_len (net.ntop ip ++ codes "/32")

  unfoldable pub ip_pool_allocate : ℕ → Pool → Pool × Option Bytes
  ip_pool_allocate max_len p =
      let (p', found) = scan (p.num_ips - 1 - 1) 1 p in
      (p', elim found [ none ↦ none | some ip ↦ some (address_text max_len ip) ])

  -- The index of an address text in the pool, which ip_pool_release and ip_pool_mark_used share.
  unfoldable pub index_of : Bytes → Pool → Option ℕ
  index_of ip_cidr p = elim (net.pton (before b'/' (strncpy 64 ip_cidr))) [
    | none ↦ none
    | some ip ↦ if ltb ip p.pool_start || ltb p.pool_end ip then none else some (ip - p.pool_start)
  ]

  unfoldable pub ip_pool_release : Bytes → Pool → Pool × Rc
  ip_pool_release ip_cidr p = elim (index_of ip_cidr p) [
    | none ↦ (p, failure)
    | some i ↦ (record p { bitmap = clear p.bitmap i }, success)
  ]

  unfoldable pub ip_pool_mark_used : Bytes → Pool → Pool × Rc
  ip_pool_mark_used ip_cidr p = elim (index_of ip_cidr p) [
    | none ↦ (p, failure)
    | some i ↦ (record p { bitmap = mark p.bitmap i }, success)
  ]

-- ip_pool_destroy frees the bitmap.
unfoldable pub ip_pool_destroy : Pool → Pool
ip_pool_destroy p = record p { bitmap = [] }
