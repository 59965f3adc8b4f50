-- ===== src/IpPool/Return.antt =====
-- ip_pool_release and ip_pool_mark_used: an address text leads back to the bit that was given out.
use wg_auth.Base.{
  ℕ, ◌+◌, ◌^◌, ◌<◌, ◌≤◌, ◌≡◌, refl, Bool, true, false, ◌++◌, some, Bytes, codes, Option-cases, inl,
  inr, arith, ◌==◌, if◌then◌else◌, length, length-append, take_all, strncpy, before, before-append,
  success,
}
use wg_auth.External.{Inet, InetLaws}
use wg_auth.IpPool.Bitmap.{
  is_used, mark, clear, length-mark, mark-IsBytes, is_used-mark, length-clear, clear-IsBytes,
  is_used-clear,
}
use wg_auth.IpPool.Shape.{IsReady}
use wg_auth.IpPool.Allocation.{Same, Same-IsReady}
use wg_auth.IpPool.{Pool, address_text, index_of, ip_pool_release, ip_pool_mark_used}

-- Bit `j` of the bitmap now is `b`, and nothing else has changed.
pub record Sets (b : Bool) (j : ℕ) (p q : Pool) : Type 0 where
  pub same : Same p q
  pub bits : (k : ℕ) → is_used q.bitmap k ≡ (if j == k then b else is_used p.bitmap k)

module _ (net : Inet) (laws : InetLaws net) where
  -- The text of an address, "a.b.c.d/32", is short enough not to be cut.
  pub address_text_lem :
      (ip : ℕ) → ip < 2 ^ 32 → address_text net 32 ip ≡ net.ntop ip ++ codes "/32"
  unfolding address_text
  address_text_lem ip h =
      take_all 31 _
        (omega (arith, length-append (net.ntop ip) (codes "/32"), laws.length-ntop ip h))

  pub length-address_text : (ip : ℕ) → ip < 2 ^ 32 → length (address_text net 32 ip) ≤ 18
  length-address_text ip h =
      rw (address_text_lem ip h)
        (omega (arith, length-append (net.ntop ip) (codes "/32"), laws.length-ntop ip h))

  pub pton-address_text :
      (ip : ℕ)
      → ip < 2 ^ 32
      → net.pton (before b'/' (strncpy 64 (address_text net 32 ip))) ≡ some ip
  pton-address_text ip h =
      let short = length-address_text ip h in
      rw
        (
          take_all 63 (address_text net 32 ip) (omega arith),
          address_text_lem ip h,
          before-append b'/' (net.ntop ip) (codes "32") (laws.ntop-Lacks ip h),
        )
        (laws.pton-ntop ip h)

  module _ (p : Pool) (w : IsReady p) (j : ℕ) (inside : j < p.num_ips) where
    address_lt : p.pool_start + j < 2 ^ 32
    address_lt = omega (arith, w.spans, w.end_lt)

    pub index_of-address_text : index_of net (address_text net 32 (p.pool_start + j)) p ≡ some j
    unfolding index_of
    index_of-address_text =
        rw (index_of, pton-address_text (p.pool_start + j) address_lt) (ground (arith, w.spans))

    pub clear-Sets : Sets false j p (record p { bitmap = clear p.bitmap j })
    clear-Sets = record {
      same = ground (arith, length-clear p.bitmap j, clear-IsBytes p.bitmap j w.bytes);
      bits = λ k. is_used-clear p.bitmap j w.bytes k (omega (arith, w.sized));
    }

    pub mark-Sets : Sets true j p (record p { bitmap = mark p.bitmap j })
    mark-Sets = record {
      same = ground (arith, length-mark p.bitmap j, mark-IsBytes p.bitmap j w.bytes);
      bits = λ k. is_used-mark p.bitmap j w.bytes k (omega (arith, w.sized));
    }

    -- Releasing the text of an address of the pool frees the bit of that address, and no other.
    pub ip_pool_release-Sets :
        let (q, rc) = ip_pool_release net (address_text net 32 (p.pool_start + j)) p in
        (rc ≡ success) × Sets false j p q
    unfolding ip_pool_release
    ip_pool_release-Sets = rw (index_of-address_text, ip_pool_release) (refl, clear-Sets)

    -- Marking the text of an address of the pool takes the bit of that address, and no other.
    pub ip_pool_mark_used-Sets :
        let (q, rc) = ip_pool_mark_used net (address_text net 32 (p.pool_start + j)) p in
        (rc ≡ success) × Sets true j p q
    unfolding ip_pool_mark_used
    ip_pool_mark_used-Sets = rw (index_of-address_text, ip_pool_mark_used) (refl, mark-Sets)

  pub index_of_lt :
      (text : Bytes) (p : Pool) (i : ℕ) → IsReady p → index_of net text p ≡ some i → i < p.num_ips
  unfolding index_of
  index_of_lt text p i w e = elim (Option-cases (net.pton (before b'/' (strncpy 64 text)))) [
    | inl bad ↦ cc (rw (bad, index_of) at e)
    | inr (ip, good) ↦ let e' = rw (good, index_of) at e in ground (arith, w.spans)
  ]

  -- Whatever text is released, a well-formed pool stays so.
  pub ip_pool_release-IsReady :
      (text : Bytes) (p : Pool) → IsReady p → IsReady (ip_pool_release net text p).0
  unfolding ip_pool_release
  ip_pool_release-IsReady text p w = elim (Option-cases (index_of net text p)) [
    | inl bad ↦ rw (bad, ip_pool_release) w
    | inr (i, good) ↦
        rw (good, ip_pool_release)
          (Same-IsReady p _ w (clear-Sets p w i (index_of_lt text p i w good)).same)
  ]
