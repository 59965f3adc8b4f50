-- ===== src/Api/Connections/Bounds.antt =====
-- The size of the bodies.
use wg_auth.Base.{
  sym, ◌∙◌, ℕ, ◌≤◌, ◌+◌, ◌≡◌, refl, some_injective, Bool, true, false, List, [], ◌∷◌, Option, none,
  some, Bytes, ltb, length, length-append, arith, Bool-cases, inl, inr,
}
use wg_auth.Api.Connections.Bodies.{own, body_after, body_after_all, handle_all-own, info_of}
use wg_auth.Api.Connections.{Event, called, completed, Connections, handle_all}
use wg_auth.Api.Router.{take_part, max_body_size}
use wg_auth.Config.{ServerConfig}
use wg_auth.External.{External}
use wg_auth.Server.{Calls}

abbrev pub Fits : Option Bytes → Type 0
Fits body = (info : Bytes) → body ≡ some info → length info ≤ max_body_size

take_part-Fits :
    (calls : Calls) (memory : Bool) (info part : Bytes)
    → length info ≤ max_body_size
    → length (info_of (take_part calls memory info part)) ≤ max_body_size
unfolding take_part
take_part-Fits calls memory info part h =
    elim (Bool-cases (ltb max_body_size (length info + length part))) [
      | inl over ↦ rw (take_part, over) h
      | inr fits ↦ elim (Bool-cases memory) [
        | inl there ↦ rw (take_part, fits, there, length-append info part) (ground (arith, fits))
        | inr full ↦ rw (take_part, fits, full) h
      ]
    ]

body_after-Fits : (e : Event) (body : Option Bytes) → Fits body → Fits (body_after e body)
unfolding body_after
body_after-Fits (completed c) body h info e = cc
body_after-Fits (called c calls req true part) none h info e = rw (← some_injective e) (omega arith)
body_after-Fits (called c calls req false part) none h info e = cc
body_after-Fits (called c calls req memory []) (some info) h info' e = h info' e
body_after-Fits (called c calls req memory (b ∷ part)) (some info) h info' e =
    rw (← some_injective e) (take_part-Fits calls memory info (b ∷ part) (h info refl))

body_after_all-Fits :
    (es : List Event) (body : Option Bytes) → Fits body → Fits (body_after_all es body)
unfolding body_after_all
body_after_all-Fits [] body h = h
body_after_all-Fits (e ∷ es) body h =
    body_after_all-Fits es (body_after e body) (body_after-Fits e body h)

module _ {K : Type 0} (ext : External K) (cfg : ServerConfig) where
  -- Whatever calls of api_router and request_completed come, for whatever connections, with
  -- whatever memory: no connection_info holds more than 4096 bytes, if none did before.
  pub bodies_bounded :
      (es : List Event) (w : Connections K)
      → ((c : ℕ) → Fits (w.infos c))
      → (c : ℕ) (info : Bytes) → (handle_all ext cfg es w).infos c ≡ some info
      → length info ≤ max_body_size
  bodies_bounded es w h c info e =
      body_after_all-Fits (own c es) (w.infos c) (h c) info
        (sym (handle_all-own ext cfg c es w) ∙ e)
