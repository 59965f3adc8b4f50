-- ===== src/IpPool/Bitmap.antt =====
-- The allocation bitmap of server/src/ip_pool.c, an array of bytes: bit `i % 8` of byte `i / 8`.
use native.Mathlib.Decide.{ℕ_discrete}
use wg_auth.Base.{
  ℕ, ◌-◌, ◌/◌, ◌%◌, ◌^◌, ◌<◌, ◌≡◌, refl, sym, ap, ◌∙◌, ◌≢◌, Bool, true, false, not, List, arith,
  ◌==◌, ltb, if◌then◌else◌, bit_and, bit_or, all_below, all_below_sound, length, get_or, set,
  length-set, get_or-set_self, get_or-set_ne, All, All-set, All-get_or,
}

-- b & (1 << k), as a truth value
unfoldable pub test_bit : ℕ → ℕ → Bool
test_bit b k = not (bit_and b (2 ^ k) == 0)

-- bitmap[i / 8] & (1 << (i % 8))
unfoldable pub is_used : List ℕ → ℕ → Bool
unfolding test_bit
is_used bitmap i = test_bit (get_or bitmap (i / 8) 0) (i % 8)

-- bitmap[i / 8] |= (1 << (i % 8))
unfoldable pub mark : List ℕ → ℕ → List ℕ
mark bitmap i = set bitmap (i / 8) (bit_or (get_or bitmap (i / 8) 0) (2 ^ (i % 8)))

-- bitmap[i / 8] &= ~(1 << (i % 8)), in the eight bits of the byte
unfoldable pub clear : List ℕ → ℕ → List ℕ
clear bitmap i = set bitmap (i / 8) (bit_and (get_or bitmap (i / 8) 0) (255 - 2 ^ (i % 8)))

-- Every entry is a byte.
abbrev pub IsBytes : List ℕ → Type 0
IsBytes = All (λ b. b < 256)

abbrev same : Bool → Bool → Bool
same true b = b
same false b = not b

same_sound : (a b : Bool) → same a b ≡ true → a ≡ b
same_sound true true h = refl
same_sound true false h = ground arith
same_sound false true h = ground arith
same_sound false false h = refl

abbrev or_law : ℕ → ℕ → ℕ → Bool
or_law b k j =
    same (not (bit_and (bit_or b (2 ^ k)) (2 ^ j) == 0))
      (if k == j then true else not (bit_and b (2 ^ j) == 0))

abbrev and_law : ℕ → ℕ → ℕ → Bool
and_law b k j =
    same (not (bit_and (bit_and b (255 - 2 ^ k)) (2 ^ j) == 0))
      (if k == j then false else not (bit_and b (2 ^ j) == 0))

abbrev byte_law : ℕ → ℕ → Bool
byte_law b k = elim (ltb (bit_or b (2 ^ k)) 256) [
  | true ↦ ltb (bit_and b (255 - 2 ^ k)) 256
  | false ↦ false
]

or_table : all_below 256 (λ b. all_below 8 (λ k. all_below 8 (or_law b k))) ≡ true
unfolding all_below
or_table = refl

and_table : all_below 256 (λ b. all_below 8 (λ k. all_below 8 (and_law b k))) ≡ true
unfolding all_below
and_table = refl

byte_table : all_below 256 (λ b. all_below 8 (byte_law b)) ≡ true
unfolding all_below
byte_table = refl

module _ (b k j : ℕ) (hb : b < 256) (hk : k < 8) (hj : j < 8) where
  test_bit-bit_or : test_bit (bit_or b (2 ^ k)) j ≡ (if k == j then true else test_bit b j)
  unfolding test_bit
  test_bit-bit_or = same_sound _ _ (
      all_below_sound 8 (or_law b k) j
        (all_below_sound 8 (λ k. all_below 8 (or_law b k)) k
          (all_below_sound 256 (λ b. all_below 8 (λ k. all_below 8 (or_law b k))) b or_table hb) hk)
        hj)

  test_bit-bit_and : test_bit (bit_and b (255 - 2 ^ k)) j ≡ (if k == j then false else test_bit b j)
  unfolding test_bit
  test_bit-bit_and = same_sound _ _ (
      all_below_sound 8 (and_law b k) j
        (all_below_sound 8 (λ k. all_below 8 (and_law b k)) k
          (all_below_sound 256 (λ b. all_below 8 (λ k. all_below 8 (and_law b k))) b and_table hb)
          hk)
        hj)

module _ (b k : ℕ) (hb : b < 256) (hk : k < 8) where
  both_bytes : byte_law b k ≡ true
  both_bytes =
      all_below_sound 8 (byte_law b) k
        (all_below_sound 256 (λ b. all_below 8 (byte_law b)) b byte_table hb) hk

  bit_or_lt : bit_or b (2 ^ k) < 256
  bit_or_lt = ground (arith, both_bytes)

  bit_and_lt : bit_and b (255 - 2 ^ k) < 256
  bit_and_lt = ground (arith, both_bytes)

-- Two bits of one byte are told apart by their positions in it.
same_byte :
    (i j : ℕ) (c x : Bool)
    → i / 8 ≡ j / 8
    → (if i % 8 == j % 8 then c else x) ≡ (if i == j then c else x)
same_byte i j c x e = ground arith

other_byte : (i j : ℕ) (c x : Bool) → i / 8 ≢ j / 8 → x ≡ (if i == j then c else x)
other_byte i j c x n = ground (arith, λ (e : i ≡ j). n (ap (λ k. k / 8) e))

module _ (bitmap : List ℕ) (i : ℕ) where
  pub length-mark : length (mark bitmap i) ≡ length bitmap
  unfolding mark
  length-mark = length-set bitmap (i / 8) _

  pub length-clear : length (clear bitmap i) ≡ length bitmap
  unfolding clear
  length-clear = length-set bitmap (i / 8) _

module _ (bitmap : List ℕ) (i : ℕ) (bytes : IsBytes bitmap) where
  byte_lt : (k : ℕ) → get_or bitmap k 0 < 256
  byte_lt k = All-get_or (λ b. b < 256) bitmap k 0 (omega arith) bytes

  pub mark-IsBytes : IsBytes (mark bitmap i)
  unfolding mark
  mark-IsBytes =
      All-set (λ b. b < 256) bitmap (i / 8) _ (bit_or_lt _ (i % 8) (byte_lt _) (omega arith)) bytes

  pub clear-IsBytes : IsBytes (clear bitmap i)
  unfolding clear
  clear-IsBytes =
      All-set (λ b. b < 256) bitmap (i / 8) _ (bit_and_lt _ (i % 8) (byte_lt _) (omega arith)) bytes

  pub is_used-mark :
      (j : ℕ)
      → i / 8 < length bitmap
      → is_used (mark bitmap i) j ≡ (if i == j then true else is_used bitmap j)
  unfolding is_used mark
  is_used-mark j h = elim (ℕ_discrete (i / 8) (j / 8)) [
    | yes e ↦
        ap (λ b. test_bit b (j % 8))
          (ap (λ k. get_or (mark bitmap i) k 0) (sym e) ∙ get_or-set_self bitmap (i / 8) _ 0 h)
        ∙ test_bit-bit_or _ (i % 8) (j % 8) (byte_lt (i / 8)) (omega arith) (omega arith)
        ∙ same_byte i j true _ e
        ∙ ap (λ k. if i == j then true else test_bit (get_or bitmap k 0) (j % 8)) e
    | no n ↦
        ap (λ b. test_bit b (j % 8)) (get_or-set_ne bitmap (i / 8) (j / 8) _ 0 n)
        ∙ other_byte i j true _ n
  ]

  pub is_used-clear :
      (j : ℕ)
      → i / 8 < length bitmap
      → is_used (clear bitmap i) j ≡ (if i == j then false else is_used bitmap j)
  unfolding is_used clear
  is_used-clear j h = elim (ℕ_discrete (i / 8) (j / 8)) [
    | yes e ↦
        ap (λ b. test_bit b (j % 8))
          (ap (λ k. get_or (clear bitmap i) k 0) (sym e) ∙ get_or-set_self bitmap (i / 8) _ 0 h)
        ∙ test_bit-bit_and _ (i % 8) (j % 8) (byte_lt (i / 8)) (omega arith) (omega arith)
        ∙ same_byte i j false _ e
        ∙ ap (λ k. if i == j then false else test_bit (get_or bitmap k 0) (j % 8)) e
    | no n ↦
        ap (λ b. test_bit b (j % 8)) (get_or-set_ne bitmap (i / 8) (j / 8) _ 0 n)
        ∙ other_byte i j false _ n
  ]
