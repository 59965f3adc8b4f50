-- ===== src/IpPool/Allocator.antt =====
-- What ip_pool.h promises, without the bitmap: a set of the indices that are not to be had, from
-- which the least index outside is given out.
pub mod Refinement
use native.Mathlib.Decide.{ℕ_discrete}
use wg_auth.Base.{
  ℕ, zero, suc, ◌+◌, ◌-◌, ◌<◌, ◌≤◌, ◌≡◌, refl, sym, ap, ◌∙◌, inl, inr, Bool, true, false, ◌||◌,
  List, [], ◌∷◌, Option, none, some, Option-cases, Bool-cases, Bytes, Rc, success, failure, arith,
  ◌==◌, if◌then◌else◌, before, strncpy,
}
use wg_auth.External.{Inet, InetLaws}
use wg_auth.IpPool.Allocation.{
  taken, Same, Grows, Grants, Same-IsReady, Allocated, taken-Grows, ip_pool_allocate-Allocated,
}
use wg_auth.IpPool.Bitmap.{is_used}
use wg_auth.IpPool.Return.{Sets, clear-Sets, mark-Sets, index_of_lt}
use wg_auth.IpPool.Shape.{IsReady}
use wg_auth.IpPool.{
  Pool, is_excluded, index_of, address_text, ip_pool_allocate, ip_pool_release, ip_pool_mark_used,
}

-- The calls of the interface, and what they return.
pub data Call : Type 0 where
  allocates : ℕ → Call
  releases marks : Bytes → Call

pub data Answer : Type 0 where
  address : Option Bytes → Answer
  code : Rc → Answer

-- The indices that are not to be had now, and those that never are.
pub record Allocator : Type 0 where
  pub first : ℕ
  pub size : ℕ
  pub closed : ℕ → Bool
  pub out : ℕ → Bool

-- The least of the `n` indices from `i` that is not out.
unfoldable pub least : ℕ → ℕ → (ℕ → Bool) → Option ℕ
least zero i out = none
least (suc n) i out = let rest = least n (i + 1) out in if out i then rest else some i

unfoldable pub put : ℕ → Bool → (ℕ → Bool) → ℕ → Bool
put j b out k = if j == k then b else out k

module _ (net : Inet) where
  -- The pool's own functions.
  unfoldable pub serve : Call → Pool → Pool × Answer
  serve (allocates max_len) p = let (q, r) = ip_pool_allocate net max_len p in (q, address r)
  serve (releases text) p = let (q, r) = ip_pool_release net text p in (q, code r)
  serve (marks text) p = let (q, r) = ip_pool_mark_used net text p in (q, code r)

  -- What they are to do, where `find` gives the index that a text means.
  unfoldable pub promise : (Bytes → Option ℕ) → Call → Allocator → Allocator × Answer
  promise find (allocates max_len) a = elim (least (a.size - 2) 1 a.out) [
    | none ↦ (a, address none)
    | some j ↦ (
      record a { out = put j true a.out },
      address (some (address_text net max_len (a.first + j))),
    )
  ]
  promise find (releases text) a = elim (find text) [
    | none ↦ (a, code failure)
    | some j ↦ (record a { out = put j (a.closed j) a.out }, code success)
  ]
  promise find (marks text) a = elim (find text) [
    | none ↦ (a, code failure)
    | some j ↦ (record a { out = put j true a.out }, code success)
  ]

  unfoldable pub serve_all : List Call → Pool → List Answer
  serve_all [] p = []
  serve_all (call ∷ calls) p = let (q, r) = serve call p in r ∷ serve_all calls q

  unfoldable pub promise_all : (Bytes → Option ℕ) → List Call → Allocator → List Answer
  promise_all find [] a = []
  promise_all find (call ∷ calls) a =
      let (b, r) = promise find call a in r ∷ promise_all find calls b

-- The allocator that a pool stands for.
abbrev pub view : Pool → Allocator
view p = record {
  first = p.pool_start;
  size = p.num_ips;
  closed = λ k. is_excluded p (p.pool_start + k);
  out = taken p;
}
