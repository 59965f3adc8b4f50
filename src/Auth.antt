-- ===== src/Auth.antt =====
-- server/src/auth.c. Random bytes are arguments.
pub mod Keys
use wg_auth.Base.{
  ◌*◌, ltb, Option, ℕ, Bool, true, false, List, Bytes, get_or, set, bit_and, bit_or, Rc, success,
  failure, if◌then◌else◌,
}
use wg_auth.Config.{ServerConfig}
use wg_auth.External.{External}

abbrev pub wg_key_len : ℕ
wg_key_len = 32

-- private_key[i] = f(private_key[i])
abbrev pub modify : ℕ → (ℕ → ℕ) → Bytes → Bytes
modify i f key = set key i (f (get_or key i 0))

-- The clamping of RFC 7748.
unfoldable pub clamp : Bytes → Bytes
clamp key =
    modify 31 (λ b. bit_or b 64)
      (modify 31 (λ b. bit_and b 127) (modify 0 (λ b. bit_and b 248) key))

-- randombytes_buf fills the key.
abbrev pub auth_generate_psk : Bytes → Bytes
auth_generate_psk random = random

module _ {K : Type 0} (ext : External K) where
  unfoldable pub auth_verify_password : Bytes → Bytes → Rc
  auth_verify_password hash password = if ext.pwhash_verify hash password then success else failure

  unfoldable pub auth_hash_password : ServerConfig → Bytes → Option Bytes
  auth_hash_password cfg password =
      ext.pwhash_str password
        (if ltb 0 cfg.argon2_time_cost then cfg.argon2_time_cost else ext.opslimit_interactive)
        (if ltb 0 cfg.argon2_mem_cost_kb
          then cfg.argon2_mem_cost_kb * 1024
          else ext.memlimit_interactive)

  -- The public key's buffer, the private key and the result.
  unfoldable pub auth_generate_keypair : Bytes → Bytes × Bytes × Rc
  auth_generate_keypair random =
      let private_key = clamp random in
      let (public_key, rc) = ext.scalarmult_base private_key in (public_key, private_key, rc)

  unfoldable pub auth_generate_token : Bytes → Bytes
  auth_generate_token random = ext.to_base64url random
