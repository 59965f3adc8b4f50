-- ===== src/WgCtl/StaticConfig/Values.antt =====
-- The texts that the parser of the interface's file takes as values as they stand.
use wg_auth.Base.{ℕ, ◌≡◌, ◌≢◌, refl, false, [], ◌∷◌, ◌++◌, Bytes, arith, All, before}
use wg_auth.Config.Load.{to_nul, trim, trim_end}
use wg_auth.Libc.{is_space, skip_space}
use wg_auth.WgCtl.StaticConfig.{to_line_end, conf_value}

-- A byte of a value: no NUL, no white space and no ';'.
abbrev pub Solid : ℕ → Type 0
Solid c = (c ≢ 0) × (is_space c ≡ false) × (c ≢ b';')

trim_end-Solid : (s : Bytes) → All Solid s → trim_end s ≡ s
unfolding trim_end
trim_end-Solid [] h = refl
trim_end-Solid (c ∷ []) h = rw (h.0.1, trim_end) refl
trim_end-Solid (c ∷ d ∷ s) h = rw (trim_end-Solid (d ∷ s) h.1, trim_end) refl

skip_space-Solid : (c : ℕ) (s : Bytes) → is_space c ≡ false → skip_space (c ∷ s) ≡ c ∷ s
unfolding skip_space
skip_space-Solid c s h = rw (h, skip_space) refl

before-Solid : (s : Bytes) → All Solid s → before b';' s ≡ s
unfolding before
before-Solid [] h = refl
before-Solid (c ∷ s) h = ground (arith, before-Solid s h.1, h.0.2)

to_line_end-Solid : (s : Bytes) → All Solid s → to_line_end (to_nul (s ++ b'\n' ∷ [])) ≡ s
unfolding to_line_end to_nul is_space
to_line_end-Solid [] h = refl
to_line_end-Solid (c ∷ s) h = ground (arith, to_line_end-Solid s h.1, h.0.0, h.0.1)

trim-Solid : (c : ℕ) (s : Bytes) → All Solid (c ∷ s) → trim (c ∷ s) ≡ c ∷ s
unfolding trim
trim-Solid c s h = rw (trim, skip_space-Solid c s h.0.1) (trim_end-Solid (c ∷ s) h)

trim-blank : (s : Bytes) → trim (b' ' ∷ s) ≡ trim s
unfolding trim skip_space is_space
trim-blank s = refl

conf_value-Solid : (c : ℕ) (s : Bytes) → All Solid (c ∷ s) → conf_value (b' ' ∷ c ∷ s) ≡ c ∷ s
unfolding conf_value
conf_value-Solid c s h =
    rw (conf_value, trim-blank (c ∷ s), trim-Solid c s h, before-Solid (c ∷ s) h, trim-Solid c s h)
      refl

-- A text that can be a value: not empty, and of such bytes.
abbrev pub IsText : Bytes → Type 0
IsText [] = ⊥
IsText (c ∷ s) = All Solid (c ∷ s)

-- How the reading of a line comes to its value.
pub record IsValue (text : Bytes) : Type 0 where
  pub first : ℕ
  pub rest : Bytes
  pub line_end : to_line_end (to_nul (text ++ b'\n' ∷ [])) ≡ text
  pub shape : trim_end text ≡ first ∷ rest
  pub value : conf_value (b' ' ∷ first ∷ rest) ≡ text

pub text-IsValue : (text : Bytes) → IsText text → IsValue text
text-IsValue [] h = absurd h
text-IsValue (c ∷ s) h = record {
  first = c;
  rest = s;
  line_end = to_line_end-Solid (c ∷ s) h;
  shape = trim_end-Solid (c ∷ s) h;
  value = conf_value-Solid c s h;
}
