-- ===== src/IpPool/Allocator/Refinement.antt =====
-- The pool of ip_pool.c against the abstract allocator.
use native.Mathlib.Decide.{ℕ_discrete}
use wg_auth.Base.{
  ℕ, zero, suc, ◌+◌, ◌-◌, ◌<◌, ◌≤◌, ◌≡◌, refl, sym, ap, ◌∙◌, inl, inr, Bool, true, false, ◌||◌,
  List, [], ◌∷◌, Option, none, some, Option-cases, Bool-cases, Bytes, arith, before, strncpy,
}
use wg_auth.External.{Inet, InetLaws}
use wg_auth.IpPool.Allocation.{
  taken, Same, Grows, Grants, Same-IsReady, Allocated, taken-Grows, ip_pool_allocate-Allocated,
}
use wg_auth.IpPool.Bitmap.{is_used}
use wg_auth.IpPool.Return.{Sets, clear-Sets, mark-Sets, index_of_lt}
use wg_auth.IpPool.Shape.{IsReady}
use wg_auth.IpPool.{
  Pool, is_excluded, index_of, ip_pool_allocate, ip_pool_release, ip_pool_mark_used,
}
use wg_auth.IpPool.Allocator.{
  Call, allocates, releases, marks, Answer, address, Allocator, least, put, serve, promise,
  serve_all, promise_all, view,
}

-- The pool stands for the allocator.
pub record Views (p : Pool) (a : Allocator) : Type 0 where
  pub starts : p.pool_start ≡ a.first
  pub nums : p.num_ips ≡ a.size
  pub closes : (k : ℕ) → is_excluded p (p.pool_start + k) ≡ a.closed k
  pub outs : (k : ℕ) → taken p k ≡ a.out k

same_truth : (a b : Bool) → (a ≡ true → b ≡ true) → (b ≡ true → a ≡ true) → a ≡ b
same_truth true b f g = sym (f refl)
same_truth false true f g = g refl
same_truth false false f g = refl

least-none :
    (n i : ℕ) (out : ℕ → Bool) → ((k : ℕ) → i ≤ k → k < i + n → out k ≡ true) → least n i out ≡ none
unfolding least
least-none zero i out all = refl
least-none (suc n) i out all =
    rw (all i (omega arith) (omega arith), least)
      (least-none n (i + 1) out (λ k lo hi. all k (omega arith) (omega arith)))

least-some :
    (n i j : ℕ) (out : ℕ → Bool)
    → i ≤ j
    → j < i + n
    → out j ≡ false
    → ((k : ℕ) → i ≤ k → k < j → out k ≡ true)
    → least n i out ≡ some j
unfolding least
least-some zero i j out lo hi free all = absurd (omega arith)
least-some (suc n) i j out lo hi free all = elim (ℕ_discrete i j) [
  | yes here ↦ rw (here, free, least) refl
  | no apart ↦
      rw (all i (omega arith) (omega arith), least)
        (least-some n (i + 1) j out (omega arith) (omega arith) free
          (λ k l h. all k (omega arith) h))
]

closed_same :
    (p q : Pool) (k : ℕ)
    → Same p q
    → is_excluded q (q.pool_start + k) ≡ is_excluded p (p.pool_start + k)
unfolding is_excluded
closed_same p q k s = rw (s.starts, s.exclude_starts, s.exclude_ends) refl

-- An index that is closed is out.
closed_taken : (p : Pool) (k : ℕ) → is_excluded p (p.pool_start + k) ≡ true → taken p k ≡ true
closed_taken p k x = ground (arith, x)

Grows-taken : (p q : Pool) (k : ℕ) → Grows p q → taken q k ≡ taken p k
Grows-taken p q k g = same_truth _ _ (taken-Grows p q g k) (λ t.
    elim (Bool-cases (is_used p.bitmap k)) [
      | inl u ↦ ground (arith, g.kept k u)
      | inr u ↦ ground (arith, closed_same p q k g.same, u, t)
    ])

Grants-taken : (p q : Pool) (j k : ℕ) → Grants p q j → taken q k ≡ put j true (taken p) k
unfolding put
Grants-taken p q j k g = elim (ℕ_discrete j k) [
  | yes here ↦ ground (arith, here, g.marked)
  | no apart ↦
      same_truth (taken q k) (taken p k)
        (λ t. elim (Bool-cases (is_used q.bitmap k)) [
          | inl u ↦ g.only k (λ e. apart (sym e)) u
          | inr u ↦ ground (arith, closed_same p q k g.same, u, t)
        ])
        (λ t. elim (Bool-cases (is_used p.bitmap k)) [
          | inl u ↦ ground (arith, g.kept k u)
          | inr u ↦ ground (arith, closed_same p q k g.same, u, t)
        ])
      ∙ ground (arith, apart)
]

Sets-taken :
    (b : Bool) (j : ℕ) (p q : Pool) (k : ℕ)
    → Sets b j p q
    → taken q k ≡ put j (b || is_excluded p (p.pool_start + j)) (taken p) k
unfolding put
Sets-taken b j p q k s =
    rw (s.bits k, closed_same p q k s.same)
      (elim (ℕ_discrete j k) [ yes here ↦ ground (arith, here) | no apart ↦ ground (arith, apart) ])

Views-kept : (p q : Pool) (a : Allocator) → Grows p q → Views p a → Views q a
Views-kept p q a g v = record {
  starts = g.same.starts ∙ v.starts;
  nums = g.same.nums ∙ v.nums;
  closes = λ k. closed_same p q k g.same ∙ v.closes k;
  outs = λ k. Grows-taken p q k g ∙ v.outs k;
}

Views-put :
    (p q : Pool) (a : Allocator) (j : ℕ) (b c : Bool)
    → Same p q
    → ((k : ℕ) → taken q k ≡ put j b (taken p) k)
    → b ≡ c
    → Views p a
    → Views q (record a { out = put j c a.out })
unfolding put
Views-put p q a j b c same changed e v = record {
  starts = same.starts ∙ v.starts;
  nums = same.nums ∙ v.nums;
  closes = λ k. closed_same p q k same ∙ v.closes k;
  outs = λ k. changed k ∙ rw (e, v.outs k) refl;
}

module _ (net : Inet) (laws : InetLaws net) (find : Bytes → Option ℕ) where
  -- The pool is ready, stands for the allocator, and reads texts as `find` does.
  record Agrees (p : Pool) (a : Allocator) : Type 0 where
    ready : IsReady p
    views : Views p a
    finds : (text : Bytes) → index_of net text p ≡ find text

  Same-finds :
      (p q : Pool) (text : Bytes)
      → Same p q
      → index_of net text p ≡ find text
      → index_of net text q ≡ find text
  unfolding index_of
  Same-finds p q text s e = elim (Option-cases (net.pton (before b'/' (strncpy 64 text)))) [
    | inl bad ↦ rw (bad, index_of) (rw (bad, index_of) at e)
    | inr (ip, good) ↦ rw (good, s.starts, s.ends, index_of) (rw (good, index_of) at e)
  ]

  -- The two answer alike, and go on to agree.
  abbrev Alike : Pool × Answer → Allocator × Answer → Type 0
  Alike (q, r) (b, s) = Agrees q b × (r ≡ s)

  allocates-Alike :
      (max_len : ℕ) (p : Pool) (a : Allocator) (r : Pool × Option Bytes)
      → Agrees p a
      → Allocated net max_len p r
      → Alike (r.0, address r.1) (promise net find (allocates max_len) a)
  unfolding promise
  allocates-Alike max_len p a (q, none) h (g, all) =
      let full =
        least-none (a.size - 2) 1 a.out
          (λ k lo hi. sym (h.views.outs k) ∙ all k (omega arith) (omega (arith, h.views.nums))) in
      rw (full, promise)
        (
          record {
            ready = Same-IsReady p q h.ready g.same;
            views = Views-kept p q a g h.views;
            finds = λ text. Same-finds p q text g.same (h.finds text);
          },
          refl,
        )
  allocates-Alike max_len p a (q, some text) h (j, e, lo, hi, g, first) =
      let found =
        least-some (a.size - 2) 1 j a.out (omega arith) (omega (arith, h.views.nums))
          (sym (h.views.outs j) ∙ g.free)
          (λ k l u. sym (h.views.outs k) ∙ first k (omega arith) u) in
      rw (found, promise)
        (
          record {
            ready = Same-IsReady p q h.ready g.same;
            views = Views-put p q a j true true g.same (λ k. Grants-taken p q j k g) refl h.views;
            finds = λ t. Same-finds p q t g.same (h.finds t);
          },
          ap (λ t. address (some t)) (e ∙ rw h.views.starts refl),
        )

  Sets-alike :
      (p q : Pool) (a : Allocator) (j : ℕ) (b c : Bool)
      → Agrees p a
      → Sets b j p q
      → (b || is_excluded p (p.pool_start + j)) ≡ c
      → Agrees q (record a { out = put j c a.out })
  Sets-alike p q a j b c h s e = record {
    ready = Same-IsReady p q h.ready s.same;
    views = Views-put p q a j _ c s.same (λ k. Sets-taken b j p q k s) e h.views;
    finds = λ text. Same-finds p q text s.same (h.finds text);
  }

  serve-Alike :
      (call : Call) (p : Pool) (a : Allocator)
      → Agrees p a
      → Alike (serve net call p) (promise net find call a)
  unfolding serve promise ip_pool_release ip_pool_mark_used
  serve-Alike (allocates max_len) p a h =
      allocates-Alike max_len p a (ip_pool_allocate net max_len p) h
        (ip_pool_allocate-Allocated net max_len p h.ready)
  serve-Alike (releases text) p a h = elim (Option-cases (index_of net text p)) [
    | inl bad ↦ rw (serve, promise, ip_pool_release, ← h.finds text, bad) (h, refl)
    | inr (j, good) ↦
        rw (serve, promise, ip_pool_release, ← h.finds text, good)
          (
            Sets-alike p _ a j false (a.closed j) h
                (clear-Sets net laws p h.ready j (index_of_lt net laws text p j h.ready good))
                (h.views.closes j),
            refl,
          )
  ]
  serve-Alike (marks text) p a h = elim (Option-cases (index_of net text p)) [
    | inl bad ↦ rw (serve, promise, ip_pool_mark_used, ← h.finds text, bad) (h, refl)
    | inr (j, good) ↦
        rw (serve, promise, ip_pool_mark_used, ← h.finds text, good)
          (
            Sets-alike p _ a j true true h
                (mark-Sets net laws p h.ready j (index_of_lt net laws text p j h.ready good)) refl,
            refl,
          )
  ]

  serve_all_lem :
      (calls : List Call) (p : Pool) (a : Allocator)
      → Agrees p a
      → serve_all net calls p ≡ promise_all net find calls a
  unfolding serve_all promise_all
  serve_all_lem [] p a h = refl
  serve_all_lem (call ∷ calls) p a h =
      let one = serve-Alike call p a h in
      rw (one.1, serve_all_lem calls (serve net call p).0 (promise net find call a).0 one.0) refl

-- Any sequence of calls of the three functions of a well-formed pool answers what the abstract
-- allocator that the pool stands for answers: an allocation the text of the least address that is
-- neither out nor excluded, or failure where there is none, and a release or a marking success
-- exactly for the texts of the pool's addresses.
pub ip_pool_refines :
    (net : Inet) (laws : InetLaws net) (calls : List Call) (p : Pool)
    → IsReady p
    → serve_all net calls p ≡ promise_all net (λ text. index_of net text p) calls (view p)
ip_pool_refines net laws calls p w =
    serve_all_lem net laws (λ text. index_of net text p) calls p (view p)
      (record {
        ready = w;
        views = record { starts = refl; nums = refl; closes = λ k. refl; outs = λ k. refl };
        finds = λ text. refl;
      })
