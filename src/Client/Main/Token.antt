-- ===== src/Client/Main/Token.antt =====
-- The token file: saving and loading.
use wg_auth.Base.{
  ℕ, ◌+◌, ◌-◌, ◌≤◌, ◌≡◌, refl, ap, ◌∙◌, Bool-cases, inl, inr, Bool, [], ◌∷◌, ◌++◌, Option, Bytes,
  arith, if◌then◌else◌, length, Lacks,
}
use wg_auth.Client.Main.{save_token, load_token, first_line}
use wg_auth.Config.Load.{fgets_all, to_nul}
use wg_auth.WgCtl.StaticConfig.{to_line_end}
use mathlib.Core.List.{append_assoc}

pub to_nul_whole : (s : Bytes) → Lacks 0 s → to_nul s ≡ s
unfolding to_nul
to_nul_whole [] h = refl
to_nul_whole (c ∷ s) h = ground (arith, to_nul_whole s h.1)

to_line_end_whole : (s : Bytes) → Lacks b'\r' s → Lacks b'\n' s → to_line_end s ≡ s
unfolding to_line_end
to_line_end_whole [] h k = refl
to_line_end_whole (c ∷ s) h k = ground (arith, to_line_end_whole s h.1 k.1)

fgets_end :
    (size room : ℕ) (line : Bytes) (c : ℕ)
    → fgets_all size room (line ++ c ∷ []) [] ≡ (line ++ c ∷ []) ∷ []
unfolding fgets_all
fgets_end size room [] c = refl
fgets_end size room (d ∷ line) c = refl

-- A text with no newline that fits the buffer is one line.
fgets_all_one :
    (size room : ℕ) (line s : Bytes) (c : ℕ)
    → length s + 1 ≤ room
    → Lacks b'\n' (c ∷ s)
    → fgets_all size room line (c ∷ s) ≡ (line ++ c ∷ s) ∷ []
unfolding fgets_all
fgets_all_one size room line [] c h l = ground (arith, fgets_end size (room - 1) line c)
fgets_all_one size room line (d ∷ s) c h l =
    ground (arith, l.0)
    ∙ fgets_all_one size (room - 1) (line ++ c ∷ []) s d (omega arith) l.1
    ∙ ap (λ t. t ∷ []) (append_assoc line (c ∷ []) (d ∷ s))

first_line_whole :
    (s : Bytes)
    → length s ≤ 255
    → Lacks b'\n' s
    → first_line (fgets_all 255 255 [] s) ≡ to_line_end (to_nul s)
unfolding fgets_all to_nul to_line_end
first_line_whole [] h l = refl
first_line_whole (c ∷ s) h l = ap first_line (fgets_all_one 255 255 [] s c (omega arith) l)

-- A token of at most 255 bytes without a NUL and a line end, once it is saved, is what load_token
-- finds; where the file cannot be opened, the earlier contents stand.
pub load_token-save_token :
    (writable : Bool) (token : Bytes) (file : Option Bytes)
    → length token ≤ 255
    → Lacks 0 token
    → Lacks b'\r' token
    → Lacks b'\n' token
    → load_token 256 (save_token writable token file)
      ≡ (if writable then token else load_token 256 file)
unfolding load_token save_token
load_token-save_token writable token file short n r l = elim (Bool-cases writable) [
  | inl open_ ↦ rw open_ (
      first_line_whole token short l
      ∙ ap to_line_end (to_nul_whole token n)
      ∙ to_line_end_whole token r l)
  | inr shut ↦ rw shut refl
]
