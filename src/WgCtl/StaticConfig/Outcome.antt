-- ===== src/WgCtl/StaticConfig/Outcome.antt =====
-- The ways out of wgctl_load_static_config.
use wg_auth.Base.{ℕ, ◌+◌, ◌≡◌, ◌≢◌, Bool, false, [], Option, some, Bytes, strncpy, Rc, success}
use wg_auth.Config.Load.{fgets_all}
use wg_auth.External.{External}
use wg_auth.WgCtl.{zero_key}
use wg_auth.WgCtl.StaticConfig.Apply.{StaticLoad, returned, all_address_chars, left_early}
use wg_auth.WgCtl.StaticConfig.Memory.{blocks}
use wg_auth.WgCtl.StaticConfig.{Loading, going, nothing_read, load_conf_lines}

module _ {K : Type 0} (ext : External K) (ifname : Bytes) (k : K) where
  -- wg_set_device, with the settings that were read, on the interface that wg_add_device has made.
  abbrev pub set_from : Loading → K × Rc
  set_from l =
      ext.wg.wg_set_device
        (record {
          name = strncpy 16 ifname;
          has_private_key = l.has_private_key;
          has_listen_port = l.has_listen_port;
          public_key = zero_key;
          private_key = l.private_key;
          listen_port = l.listen_port;
          peers = l.peers;
        })
        (ext.wg.wg_add_device (strncpy 16 ifname) k)

  -- The settings that the parser has read from a file, to its end.
  abbrev pub Read : (ℕ → Bool) → Bytes → Loading → Type 0
  Read memory file l =
      load_conf_lines ext memory (fgets_all 1023 1023 [] file) nothing_read ≡ going l

  pub data Outcome (memory : ℕ → Bool) : Option Bytes → StaticLoad K → Type 0 where
    given_up :
        (file : Option Bytes) (r : StaticLoad K)
        → r.result ≢ returned success
        → r.kernel ≡ k
        → r.commands ≡ []
        → r.freed ≡ r.allocated
        → Outcome memory file r
    answered :
        (file : Bytes) (l : Loading) (rc : Rc) (r : StaticLoad K)
        → Read memory file l
        → set_from l ≡ (r.kernel, rc)
        → r.result ≡ returned rc
        → r.freed ≡ r.allocated
        → Outcome memory (some file) r
    left_unfreed :
        (file : Bytes) (l : Loading) (k' : K)
        → Read memory file l
        → set_from l ≡ (k', success)
        → all_address_chars l.interface_address ≡ false
        → l.allocated ≡ l.freed + blocks l.peers
        → Outcome memory (some file) (left_early l k')
