-- ===== src/IpPool/Shape.antt =====
-- What ip_pool_init establishes: the range of the pool, its size, and a bitmap that fits it.
use wg_auth.Base.{
  ℕ, zero, suc, ◌+◌, ◌-◌, ◌*◌, ◌/◌, ◌%◌, ◌^◌, ◌<◌, ◌≤◌, ◌≡◌, refl, subst, ◌∙◌, Bool, true, false,
  ◌||◌, not, some, Bytes, Option-cases, Bool-cases, inl, inr, arith, ◌==◌, leb, if◌then◌else◌,
  all_below, all_below_sound, length, replicate, length-replicate, get_or, All-replicate, success,
  strncpy, before,
}
use wg_auth.External.{Inet, InetLaws}
use wg_auth.Libc.{ℤ, within, to_ℕ, pos, negsuc}
use wg_auth.IpPool.Bitmap.{is_used, test_bit, IsBytes, length-mark, mark-IsBytes, is_used-mark}
use wg_auth.IpPool.{
  Pool, max_pool_size, prefix_of, network, parse_cidr, fresh_bitmap, set_up, excluded_range,
  ip_pool_init,
}

-- The pool is a block of at least four and at most 2^20 addresses, with a bit for each.
pub record IsReady (p : Pool) : Type 0 where
  pub spans : p.pool_start + p.num_ips ≡ p.pool_end + 1
  pub end_lt : p.pool_end < 2 ^ 32
  pub large : 4 ≤ p.num_ips
  pub small : p.num_ips ≤ max_pool_size
  pub bytes : IsBytes p.bitmap
  pub sized : length p.bitmap ≡ (p.num_ips + 7) / 8

abbrev size_law : ℕ → Bool
size_law p = (2 ^ (32 - p) * 2 ^ p == 2 ^ 32)

size_table : all_below 31 size_law ≡ true
unfolding all_below
size_table = refl

abbrev bound_law : ℕ → Bool
bound_law p = leb 4 (2 ^ (32 - p))

bound_table : all_below 31 bound_law ≡ true
unfolding all_below
bound_table = refl

abbrev top_law : ℕ → Bool
top_law p = if p == 0 then true else leb (2 ^ (32 - p)) (2 ^ 31)

top_table : all_below 31 top_law ≡ true
unfolding all_below
top_table = refl

module _ (p : ℕ) (lo : 1 ≤ p) (hi : p ≤ 30) where
  block_size : 2 ^ (32 - p) * 2 ^ p ≡ 2 ^ 32
  block_size = ground (arith, all_below_sound 31 size_law p size_table (omega arith))

  block_large : 4 ≤ 2 ^ (32 - p)
  block_large = ground (arith, all_below_sound 31 bound_law p bound_table (omega arith))

  block_small : 2 ^ (32 - p) ≤ 2 ^ 31
  block_small = ground (arith, all_below_sound 31 top_law p top_table (omega arith))

quotient_lt : (m k q ip : ℕ) → m * q ≤ ip → ip < m * k → q < k
quotient_lt m k q ip h l = grind arith

-- The block of an address ends inside the address space.
block_end : (m k ip : ℕ) → m * k ≡ 2 ^ 32 → ip < 2 ^ 32 → 0 < m → ip - ip % m + m ≤ 2 ^ 32
block_end m k ip e h large =
    let q : ℕ = ip / m in
    let below : q < k = quotient_lt m k q ip (omega arith) (omega arith) in
    let whole : m * (q + 1) ≤ m * k = grind arith in omega arith

-- The range that a CIDR denotes.
pub record IsBlock (range : ℕ × ℕ) : Type 0 where
  pub size : ℕ
  pub ends : range.1 + 1 ≡ range.0 + size
  pub inside : range.1 < 2 ^ 32
  pub size_large : 4 ≤ size
  pub size_small : size ≤ 2 ^ 31

network-IsBlock : (ip p : ℕ) → ip < 2 ^ 32 → 1 ≤ p → p ≤ 30 → IsBlock (network ip p)
unfolding network
network-IsBlock ip p h lo hi = record {
  size = 2 ^ (32 - p);
  ends = omega (arith, block_large p lo hi);
  inside = omega (
    arith,
    block_large p lo hi,
    block_end (2 ^ (32 - p)) (2 ^ p) ip (block_size p lo hi) h (omega (arith, block_large p lo hi)),
  );
  size_large = block_large p lo hi;
  size_small = block_small p lo hi;
}

within_bounds : (lo hi : ℕ) (v : ℤ) → within lo hi v ≡ true → (lo ≤ to_ℕ v) × (to_ℕ v ≤ hi)
within_bounds lo hi (pos n) h = ground arith
within_bounds lo hi (negsuc n) h = ground arith

module _ (net : Inet) (laws : InetLaws net) where
  -- A CIDR is accepted only with a prefix length from 1 to 30, and then denotes an aligned block.
  pub parse_cidr-IsBlock :
      (cidr : Bytes) (range : ℕ × ℕ) → parse_cidr net cidr ≡ some range → IsBlock range
  unfolding parse_cidr
  parse_cidr-IsBlock cidr range e =
      let prefix : ℤ = prefix_of (strncpy 64 cidr) in
      elim (Bool-cases (within 1 30 prefix)) [
        | inl ok ↦ elim (Option-cases (net.pton (before b'/' (strncpy 64 cidr)))) [
          | inl bad ↦ cc (rw (ok, bad, parse_cidr) at e)
          | inr (ip, good) ↦
              let bounds = within_bounds 1 30 prefix ok in
              let found : network ip (to_ℕ prefix) ≡ range = cc (rw (ok, good, parse_cidr) at e) in
              subst IsBlock found
                (network-IsBlock ip (to_ℕ prefix) (laws.pton_lt _ ip good) bounds.0 bounds.1)
        ]
        | inr bad ↦ cc (rw (bad, parse_cidr) at e)
      ]

abbrev divided : ℕ → ℕ
divided n = (n + 7) / 8

zeros-IsBytes : (n : ℕ) → IsBytes (replicate (divided n) 0)
zeros-IsBytes n = All-replicate (λ b. b < 256) (divided n) 0 (omega arith)

fresh_bitmap-IsBytes : (n : ℕ) → IsBytes (fresh_bitmap n)
unfolding fresh_bitmap
fresh_bitmap-IsBytes n = mark-IsBytes _ (n - 1) (mark-IsBytes _ 0 (zeros-IsBytes n))

length-fresh_bitmap : (n : ℕ) → length (fresh_bitmap n) ≡ (n + 7) / 8
unfolding fresh_bitmap
length-fresh_bitmap n = length-mark _ (n - 1) ∙ length-mark _ 0 ∙ length-replicate (divided n) 0

get_or-replicate : (k i : ℕ) → get_or {A = ℕ} (replicate k 0) i 0 ≡ 0
get_or-replicate zero i = refl
get_or-replicate (suc k) zero = refl
get_or-replicate (suc k) (suc i) = get_or-replicate k i

empty_byte : all_below 8 (λ j. not (test_bit 0 j)) ≡ true
unfolding all_below test_bit
empty_byte = refl

false_of_not : (b : Bool) → not b ≡ true → b ≡ false
false_of_not b h = ground arith

is_used-replicate : (k i : ℕ) → is_used (replicate k 0) i ≡ false
unfolding is_used
is_used-replicate k i =
    rw (get_or-replicate k (i / 8)) (
      false_of_not _ (all_below_sound 8 (λ j. not (test_bit 0 j)) (i % 8) empty_byte (omega arith)))

-- A new pool has exactly the network and the broadcast address taken.
is_used-fresh_bitmap :
    (n i : ℕ) → 4 ≤ n → i < n → is_used (fresh_bitmap n) i ≡ ((i == 0) || (i == n - 1))
unfolding fresh_bitmap
is_used-fresh_bitmap n i large h =
    rw
      (
        is_used-mark _ (n - 1) (mark-IsBytes _ 0 (zeros-IsBytes n)) i (
            omega
              (arith, length-mark (replicate (divided n) 0) 0, length-replicate (divided n) zero)),
        is_used-mark _ 0 (zeros-IsBytes n) i (omega (arith, length-replicate (divided n) zero)),
        is_used-replicate (divided n) i,
      )
      (ground arith)

module _ (range excluded : ℕ × ℕ) (p q : Pool) where
  set_up-IsReady :
      IsBlock range
      → set_up range excluded p ≡ (q, success)
      → IsReady q × (q.bitmap ≡ fresh_bitmap q.num_ips)
  unfolding set_up
  set_up-IsReady b e =
      let n : ℕ = (range.1 + 2 ^ 32 - range.0 + 1) % 2 ^ 32 in
      let sized : n ≡ b.size = omega arith in
      ground (arith, fresh_bitmap-IsBytes n, length-fresh_bitmap n)

module _ (net : Inet) (laws : InetLaws net) where
  -- A pool that ip_pool_init sets up is well formed, and just its first and last address are taken.
  pub ip_pool_init-IsReady :
      (cidr exclude : Bytes) (p q : Pool)
      → ip_pool_init net cidr exclude p ≡ (q, success)
      → IsReady q
        × ((i : ℕ) → i < q.num_ips → is_used q.bitmap i ≡ ((i == 0) || (i == q.num_ips - 1)))
  unfolding ip_pool_init
  ip_pool_init-IsReady cidr exclude p q e = elim (Option-cases (parse_cidr net cidr)) [
    | inl bad ↦ cc (rw (bad, ip_pool_init) at e)
    | inr (range, good) ↦
        let made =
          set_up-IsReady range (excluded_range net exclude) p q
            (parse_cidr-IsBlock net laws cidr range good) (rw (good, ip_pool_init) at e) in
        (made.0, λ i h. rw made.1 (is_used-fresh_bitmap q.num_ips i made.0.large h))
  ]
