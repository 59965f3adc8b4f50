-- ===== src/Auth/Keys.antt =====
-- The private keys that auth_generate_keypair makes.
use wg_auth.Base.{
  ℕ, ◌%◌, ◌<◌, ◌≤◌, ◌≡◌, ◌≢◌, refl, sym, ap, ◌∙◌, Bool, true, ◌&&◌, Bytes, arith, ◌==◌, ltb, leb,
  all_below, all_below_sound, length, get_or, length-set, get_or-set_self, get_or-set_ne, bit_and,
  bit_or,
}
use wg_auth.Auth.{modify, clamp}

-- The three masks, on every byte.
abbrev mask_law : ℕ → Bool
mask_law b =
    (bit_and b 248 % 8 == 0)
    && leb 64 (bit_or (bit_and b 127) 64)
    && ltb (bit_or (bit_and b 127) 64) 128

mask_table : all_below 256 mask_law ≡ true
unfolding all_below
mask_table = refl

modify_self :
    (i : ℕ) (f : ℕ → ℕ) (key : Bytes)
    → i < length key
    → get_or (modify i f key) i 0 ≡ f (get_or key i 0)
modify_self i f key inside = get_or-set_self key i (f (get_or key i 0)) 0 inside

modify_ne :
    (i j : ℕ) (f : ℕ → ℕ) (key : Bytes) → i ≢ j → get_or (modify i f key) j 0 ≡ get_or key j 0
modify_ne i j f key n = get_or-set_ne key i j (f (get_or key i 0)) 0 n

module _ (key : Bytes) where
  abbrev first_done : Bytes
  first_done = modify 0 (λ b. bit_and b 248) key

  abbrev last_begun : Bytes
  last_begun = modify 31 (λ b. bit_and b 127) first_done

  middle_byte : (i : ℕ) → i ≢ 31 → get_or (clamp key) i 0 ≡ get_or first_done i 0
  unfolding clamp
  middle_byte i n =
      modify_ne 31 i (λ b. bit_or b 64) last_begun (λ e. n (sym e))
      ∙ modify_ne 31 i (λ b. bit_and b 127) first_done (λ e. n (sym e))

  first_byte : 0 < length key → get_or (clamp key) 0 0 ≡ bit_and (get_or key 0 0) 248
  first_byte h = middle_byte 0 (omega arith) ∙ modify_self 0 (λ b. bit_and b 248) key h

  last_byte : 31 < length key → get_or (clamp key) 31 0 ≡ bit_or (bit_and (get_or key 31 0) 127) 64
  unfolding clamp
  last_byte h =
      let same = length-set key 0 (bit_and (get_or key 0 0) 248) in
      let same' = length-set first_done 31 (bit_and (get_or first_done 31 0) 127) in
      modify_self 31 (λ b. bit_or b 64) last_begun (omega arith)
      ∙ ap (λ b. bit_or b 64) (modify_self 31 (λ b. bit_and b 127) first_done (omega arith))
      ∙ ap (λ b. bit_or (bit_and b 127) 64) (modify_ne 0 31 (λ b. bit_and b 248) key (omega arith))

  -- A key of 32 bytes is clamped as RFC 7748 asks, its first byte to a multiple of 8 and its last
  -- to 64 at least and 127 at most; the other bytes are the random ones.
  pub clamp-clamped :
      length key ≡ 32
      → get_or key 0 0 < 256
      → get_or key 31 0 < 256
      → (get_or (clamp key) 0 0 % 8 ≡ 0)
        × (64 ≤ get_or (clamp key) 31 0)
        × (get_or (clamp key) 31 0 < 128)
        × ((i : ℕ) → i ≢ 0 → i ≢ 31 → get_or (clamp key) i 0 ≡ get_or key i 0)
  clamp-clamped h first last = (
    rw (first_byte (omega arith)) (ground (arith, all_below_sound 256 mask_law _ mask_table first)),
    rw (last_byte (omega arith)) (ground (arith, all_below_sound 256 mask_law _ mask_table last)),
    rw (last_byte (omega arith)) (ground (arith, all_below_sound 256 mask_law _ mask_table last)),
    λ i n m. middle_byte i m ∙ modify_ne 0 i (λ b. bit_and b 248) key (λ e. n (sym e)),
  )
