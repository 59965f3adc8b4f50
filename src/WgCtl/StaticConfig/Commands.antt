-- ===== src/WgCtl/StaticConfig/Commands.antt =====
-- The commands that are started with a text of the file.
use wg_auth.Base.{
  ℕ, ◌≡◌, ◌⊎◌, refl, inl, inr, Bool, true, List, [], ◌∷◌, Option, none, some, Bytes, strncpy, All,
  Bool-cases, Rc, success, failure,
}
use wg_auth.Config.Load.{fgets_all}
use wg_auth.External.{External}
use wg_auth.WgCtl.StaticConfig.Apply.{
  configured, loaded, wgctl_load_static_config, all_address_chars, link_up, addr_add,
}
use wg_auth.WgCtl.StaticConfig.{
  Loading, Loaded, going, bad_key, no_memory, load_conf_lines, nothing_read,
}

-- `ip link set up` on the interface, or `ip addr add` with a text of address characters.
abbrev pub IsSafe : Bytes → List Bytes → Type 0
IsSafe name argv =
    (argv ≡ link_up name)
    ⊎ ((address : Bytes) × (all_address_chars address ≡ true) × (argv ≡ addr_add address name))

module _ {K : Type 0} where
  configured-IsSafe :
      (name address : Bytes) (l : Loading) (r : K × Rc)
      → All (IsSafe name) (configured name address l r).commands
  unfolding configured
  configured-IsSafe name address l (k, failure) = tt
  configured-IsSafe name [] l (k, success) = (inl refl, tt)
  configured-IsSafe name (c ∷ address) l (k, success) =
      elim (Bool-cases (all_address_chars (c ∷ address))) [
        | inl fine ↦ rw (configured, fine) (inr (c ∷ address, fine, refl), (inl refl, tt))
        | inr bad ↦ rw (configured, bad) tt
      ]

  loaded-IsSafe :
      (ext : External K) (name : Bytes) (r : Loaded) (k : K)
      → All (IsSafe name) (loaded ext name r k).commands
  unfolding loaded
  loaded-IsSafe ext name (bad_key l) k = tt
  loaded-IsSafe ext name (no_memory l) k = tt
  loaded-IsSafe ext name (going l) k = configured-IsSafe name l.interface_address l _

  -- Whatever the file holds and whichever calls of calloc fail, each command that
  -- wgctl_load_static_config starts is either `ip link set up dev NAME` or `ip addr add ADDRESS dev
  -- NAME`, where NAME is the interface's name cut to its buffer and ADDRESS has no characters but
  -- hexadecimal digits, '.', ':' and '/'.
  pub wgctl_load_static_config-IsSafe :
      (ext : External K) (memory : ℕ → Bool) (ifname : Bytes) (file : Option Bytes) (k : K)
      → All
          (IsSafe (strncpy 16 ifname))
          (wgctl_load_static_config ext memory ifname file k).commands
  unfolding wgctl_load_static_config
  wgctl_load_static_config-IsSafe ext memory ifname none k = tt
  wgctl_load_static_config-IsSafe ext memory ifname (some file) k =
      loaded-IsSafe ext (strncpy 16 ifname)
        (load_conf_lines ext memory (fgets_all 1023 1023 [] file) nothing_read) k
