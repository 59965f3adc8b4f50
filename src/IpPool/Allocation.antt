-- ===== src/IpPool/Allocation.antt =====
-- ip_pool_allocate: what it grants, when it fails, and what it leaves alone.
use native.Mathlib.Decide.{ℕ_discrete}
use wg_auth.Base.{
  ℕ, zero, suc, ◌+◌, ◌-◌, ◌*◌, ◌/◌, ◌<◌, ◌≤◌, ◌≡◌, refl, ap, ◌≢◌, Bool, true, false, ◌||◌, Option,
  none, some, Bytes, Bool-cases, inl, inr, arith, length,
}
use wg_auth.External.{Inet}
use wg_auth.IpPool.Bitmap.{is_used, IsBytes, length-mark, mark-IsBytes, is_used-mark}
use wg_auth.IpPool.Shape.{IsReady}
use wg_auth.IpPool.{Pool, is_excluded, mark_index, scan, address_text, ip_pool_allocate}

-- No address is to be had at this index: it is in use, or in the excluded range.
abbrev pub taken : Pool → ℕ → Bool
taken p k = is_used p.bitmap k || is_excluded p (p.pool_start + k)

-- The ranges and the shape of the bitmap are as they were.
pub record Same (p q : Pool) : Type 0 where
  pub starts : q.pool_start ≡ p.pool_start
  pub ends : q.pool_end ≡ p.pool_end
  pub exclude_starts : q.exclude_start ≡ p.exclude_start
  pub exclude_ends : q.exclude_end ≡ p.exclude_end
  pub nums : q.num_ips ≡ p.num_ips
  pub lengths : length q.bitmap ≡ length p.bitmap
  pub bytes : IsBytes q.bitmap

-- Every index in use stays so, and only indices that were taken are in use.
pub record Grows (p q : Pool) : Type 0 where
  pub same : Same p q
  pub kept : (k : ℕ) → is_used p.bitmap k ≡ true → is_used q.bitmap k ≡ true
  pub only : (k : ℕ) → is_used q.bitmap k ≡ true → taken p k ≡ true

-- The free index `j` outside the excluded range is given out, and no other that was to be had.
pub record Grants (p q : Pool) (j : ℕ) : Type 0 where
  pub same : Same p q
  pub kept : (k : ℕ) → is_used p.bitmap k ≡ true → is_used q.bitmap k ≡ true
  pub only : (k : ℕ) → k ≢ j → is_used q.bitmap k ≡ true → taken p k ≡ true
  pub free : taken p j ≡ false
  pub marked : is_used q.bitmap j ≡ true

-- `n` indices from `i` are searched.
abbrev pub Outcome : Pool → ℕ → ℕ → Pool × Option ℕ → Type 0
Outcome p i n (q, none) = Grows p q × ((k : ℕ) → i ≤ k → k < i + n → taken p k ≡ true)
Outcome p i n (q, some ip) =
    (j : ℕ) × (ip ≡ p.pool_start + j)
    × (i ≤ j)
    × (j < i + n)
    × Grants p q j
    × ((k : ℕ) → i ≤ k → k < j → taken p k ≡ true)

Same-trans : (p q r : Pool) → Same p q → Same q r → Same p r
Same-trans p q r s t = ground arith

pub taken-Grows : (p q : Pool) → Grows p q → (k : ℕ) → taken q k ≡ true → taken p k ≡ true
unfolding is_excluded
taken-Grows p q g k h = elim (Bool-cases (is_used q.bitmap k)) [
  | inl u ↦ g.only k u
  | inr u ↦ ground (arith, g.same)
]

Grows-trans : (p q r : Pool) → Grows p q → Grows q r → Grows p r
Grows-trans p q r g h = record {
  same = Same-trans p q r g.same h.same;
  kept = λ k u. h.kept k (g.kept k u);
  only = λ k u. taken-Grows p q g k (h.only k u);
}

untaken-Grows : (p q : Pool) → Grows p q → (k : ℕ) → taken q k ≡ false → taken p k ≡ false
unfolding is_excluded
untaken-Grows p q g k h = ground (arith, g.kept k, g.same)

Grows-Grants : (p q r : Pool) (j : ℕ) → Grows p q → Grants q r j → Grants p r j
Grows-Grants p q r j g h = record {
  same = Same-trans p q r g.same h.same;
  kept = λ k u. h.kept k (g.kept k u);
  only = λ k n u. taken-Grows p q g k (h.only k n u);
  free = untaken-Grows p q g j h.free;
  marked = h.marked;
}

-- A first index that is taken is passed over.
pass :
    (p q : Pool) (i n : ℕ) (r : Pool × Option ℕ)
    → Grows p q
    → taken p i ≡ true
    → Outcome q (i + 1) n r
    → Outcome p i (suc n) r
pass p q i n (r, none) g t (h, all) =
    (Grows-trans p q r g h, λ k lo hi. later k lo (λ lo'. all k lo' (omega arith)))
  where
    later : (k : ℕ) → i ≤ k → (i + 1 ≤ k → taken q k ≡ true) → taken p k ≡ true
    later k lo f = elim (ℕ_discrete i k) [
      | yes here ↦ rw (← here) t
      | no n ↦ taken-Grows p q g k (f (omega arith))
    ]
pass p q i n (r, some ip) g t (j, e, low, high, h, first) = (
  j,
  ground (arith, g.same),
  omega arith,
  omega arith,
  Grows-Grants p q r j g h,
  λ k lo hi. later k lo (λ lo'. first k lo' hi),
)
  where
    later : (k : ℕ) → i ≤ k → (i + 1 ≤ k → taken q k ≡ true) → taken p k ≡ true
    later k lo f = elim (ℕ_discrete i k) [
      | yes here ↦ rw (← here) t
      | no n ↦ taken-Grows p q g k (f (omega arith))
    ]

module _ (p : Pool) (i : ℕ) (bytes : IsBytes p.bitmap) (inside : i / 8 < length p.bitmap) where
  Grows-mark_index : taken p i ≡ true → Grows p (mark_index p i)
  Grows-mark_index t = record {
    same = ground (arith, length-mark p.bitmap i, mark-IsBytes p.bitmap i bytes);
    kept = λ k u. ground (arith, is_used-mark p.bitmap i bytes k);
    only = λ k u. elim (ℕ_discrete i k) [
      | yes here ↦ rw (← here) t
      | no n ↦ ground (arith, is_used-mark p.bitmap i bytes k)
    ];
  }

  Grants-mark_index : taken p i ≡ false → Grants p (mark_index p i) i
  Grants-mark_index t = record {
    same = ground (arith, length-mark p.bitmap i, mark-IsBytes p.bitmap i bytes);
    kept = λ k u. ground (arith, is_used-mark p.bitmap i bytes k);
    only = λ k n u. ground (arith, is_used-mark p.bitmap i bytes k);
    free = t;
    marked = ground (arith, is_used-mark p.bitmap i bytes i);
  }

pub Grows-refl : (p : Pool) → IsBytes p.bitmap → Grows p p
Grows-refl p b = record { same = ground arith; kept = λ k u. u; only = λ k u. ground arith }

scan-Outcome :
    (n i : ℕ) (p : Pool)
    → IsBytes p.bitmap
    → i + n ≤ length p.bitmap * 8
    → Outcome p i n (scan n i p)
unfolding scan
scan-Outcome zero i p b h = (Grows-refl p b, λ k lo hi. absurd (omega arith))
scan-Outcome (suc n) i p b h = elim (Bool-cases (is_used p.bitmap i)) [
  | inl u ↦
      rw (u, scan)
        (pass p p i n _ (Grows-refl p b) (ground arith) (scan-Outcome n (i + 1) p b (omega arith)))
  | inr free ↦ elim (Bool-cases (is_excluded p (p.pool_start + i))) [
    | inl x ↦
        rw (free, x, scan)
          (pass p (mark_index p i) i n _ (Grows-mark_index p i b (omega arith) (ground arith))
            (ground arith)
            (scan-Outcome n (i + 1) (mark_index p i) (mark-IsBytes p.bitmap i b)
              (omega (arith, length-mark p.bitmap i))))
    | inr open_ ↦
        rw (free, open_, scan)
          (
            i,
            refl,
            omega arith,
            omega arith,
            Grants-mark_index p i b (omega arith) (ground arith),
            λ k lo hi. absurd (omega arith),
          )
  ]
]

-- The reply of ip_pool_allocate, with the pool after it.
abbrev pub Allocated : Inet → ℕ → Pool → Pool × Option Bytes → Type 0
Allocated net max_len p (q, none) =
    Grows p q × ((k : ℕ) → 0 < k → k + 1 < p.num_ips → taken p k ≡ true)
Allocated net max_len p (q, some text) =
    (j : ℕ) × (text ≡ address_text net max_len (p.pool_start + j))
    × (0 < j)
    × (j + 1 < p.num_ips)
    × Grants p q j
    × ((k : ℕ) → 0 < k → k < j → taken p k ≡ true)

from_Outcome :
    (net : Inet) (max_len : ℕ) (p : Pool) (r : Pool × Option ℕ)
    → 4 ≤ p.num_ips
    → Outcome p 1 (p.num_ips - 1 - 1) r
    → Allocated net max_len p
        (r.0, elim r.1 [ none ↦ none | some ip ↦ some (address_text net max_len ip) ])
from_Outcome net max_len p (q, none) l (g, all) = (g, λ k lo hi. all k lo (omega arith))
from_Outcome net max_len p (q, some ip) l (j, e, lo, hi, g, first) =
    (j, ap (address_text net max_len) e, lo, omega arith, g, first)

-- ip_pool_allocate grants the first usable address of a well-formed pool that is neither in use nor
-- excluded, marks it, and takes no other usable address; it fails only when every usable address is
-- in use or excluded.
pub ip_pool_allocate-Allocated :
    (net : Inet) (max_len : ℕ) (p : Pool)
    → IsReady p
    → Allocated net max_len p (ip_pool_allocate net max_len p)
unfolding ip_pool_allocate
ip_pool_allocate-Allocated net max_len p w =
    from_Outcome net max_len p (scan (p.num_ips - 1 - 1) 1 p) w.large
      (scan-Outcome (p.num_ips - 1 - 1) 1 p w.bytes (omega (arith, w.sized)))

-- A pool of the same shape is well formed too.
pub Same-IsReady : (p q : Pool) → IsReady p → Same p q → IsReady q
Same-IsReady p q w s = ground arith
