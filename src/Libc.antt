-- ===== src/Libc.antt =====
-- The parts of the C library that the sources compute with: isspace, strtol and atoi, over the
-- bytes of a C string. `long` has 64 bits and `int` has 32.
use wg_auth.Base.{
  ℕ, ◌+◌, ◌-◌, ◌*◌, ◌^◌, ◌%◌, Bool, true, false, ◌&&◌, ◌||◌, [], ◌∷◌, Bytes, ltb, leb, ◌==◌,
  if◌then◌else◌,
}

-- `negsuc n` is -(n + 1).
pub data ℤ : Type 0 where
  pos : ℕ → ℤ
  negsuc : ℕ → ℤ

-- -n
abbrev pub neg : ℕ → ℤ
neg n = if n == 0 then pos 0 else negsuc (n - 1)

-- lo <= v && v <= hi, for bounds that are not negative.
abbrev pub within : ℕ → ℕ → ℤ → Bool
within lo hi (pos n) = leb lo n && leb n hi
within lo hi (negsuc n) = false

-- The value, where `within` has excluded the negative ones.
abbrev pub to_ℕ : ℤ → ℕ
to_ℕ (pos n) = n
to_ℕ (negsuc n) = 0

-- A `long` modulo 2^32, and the `int` with that bit pattern.
residue : ℤ → ℕ
residue (pos n) = n % 2 ^ 32
residue (negsuc n) = 2 ^ 32 - 1 - n % 2 ^ 32

unfoldable pub to_int : ℤ → ℤ
unfolding residue
to_int v = let r = residue v in if ltb r (2 ^ 31) then pos r else negsuc (2 ^ 32 - 1 - r)

unfoldable pub is_space : ℕ → Bool
is_space c = c == b' ' || (leb b'\t' c && leb c b'\r')

unfoldable pub is_digit : ℕ → Bool
is_digit c = leb b'0' c && leb c b'9'

unfoldable pub skip_space : Bytes → Bytes
unfolding is_space
skip_space [] = []
skip_space (c ∷ s) = if is_space c then skip_space s else c ∷ s

-- The digits at the front of `s`, on top of `n`, and what follows them.
unfoldable pub digits : ℕ → Bytes → ℕ × Bytes
unfolding is_digit
digits n [] = (n, [])
digits n (c ∷ s) = elim (is_digit c) [ true ↦ digits (n * 10 + (c - b'0')) s | false ↦ (n, c ∷ s) ]

-- LONG_MAX and LONG_MIN bound the result.
abbrev saturate : Bool → ℕ → ℤ
saturate negative n =
    if negative
    then neg (if ltb (2 ^ 63) n then 2 ^ 63 else n)
    else pos (if ltb (2 ^ 63 - 1) n then 2 ^ 63 - 1 else n)

-- The digits behind the sign; with none, the value is 0 and the end is the string's own start.
unfoldable pub convert : Bytes → Bool → Bytes → ℤ × Bytes
unfolding digits
convert s negative [] = (pos 0, s)
convert s negative (c ∷ r) =
    if is_digit c
    then (let (n, rest) = digits 0 (c ∷ r) in (saturate negative n, rest))
    else (pos 0, s)

-- The text behind the white space, with its sign.
unfoldable pub signed_part : Bytes → Bytes → ℤ × Bytes
unfolding convert
signed_part s [] = (pos 0, s)
signed_part s (c ∷ r) =
    if c == b'-'
    then convert s true r
    else if c == b'+'
    then convert s false r
    else convert s false (c ∷ r)

-- strtol(s, &end, 10): the value and `end`.
unfoldable pub strtol : Bytes → ℤ × Bytes
unfolding skip_space signed_part
strtol s = signed_part s (skip_space s)

-- atoi(s) is (int)strtol(s, NULL, 10).
unfoldable pub atoi : Bytes → ℤ
unfolding strtol to_int
atoi s = to_int (strtol s).0
