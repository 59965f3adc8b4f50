-- ===== src/Api/Connections/Bodies.antt =====
-- The body of a connection, whatever the others do.
use wg_auth.Base.{
  ℕ, ◌≡◌, refl, sym, inl, inr, Bool, false, List, [], ◌∷◌, Option, none, some, Bytes, ◌==◌,
  if◌then◌else◌, arith, Bool-cases, ==_iff,
}
use wg_auth.Api.Connections.{
  Event, called, completed, connection_of, Connections, put_info, new_info, after_routed, call,
  request_completed, handle, handle_all,
}
use wg_auth.Server.{Calls}
use wg_auth.Api.Router.{Request, Routed, continue, replied, take_part, api_router}
use wg_auth.Config.{ServerConfig}
use wg_auth.External.{External}

-- The events of one connection.
unfoldable pub own : ℕ → List Event → List Event
own c [] = []
own c (e ∷ es) = if c == connection_of e then e ∷ own c es else own c es

abbrev pub info_of : Routed → Bytes
info_of (continue info) = info
info_of (replied info reply) = info

-- What an event of a connection does to its body: a description that knows neither the server nor
-- the other connections.
unfoldable pub body_after : Event → Option Bytes → Option Bytes
body_after (completed c) body = none
body_after (called c calls req memory part) none = new_info memory
body_after (called c calls req memory []) (some info) = some info
body_after (called c calls req memory (b ∷ part)) (some info) =
    some (info_of (take_part calls memory info (b ∷ part)))

unfoldable pub body_after_all : List Event → Option Bytes → Option Bytes
body_after_all [] body = body
body_after_all (e ∷ es) body = body_after_all es (body_after e body)

put_info_same :
    (c : ℕ) (body : Option Bytes) (infos : ℕ → Option Bytes) → put_info c body infos c ≡ body
unfolding put_info
put_info_same c body infos = ground arith

put_info_other :
    (c k : ℕ) (body : Option Bytes) (infos : ℕ → Option Bytes)
    → (k == c) ≡ false
    → put_info c body infos k ≡ infos k
unfolding put_info
put_info_other c k body infos other = rw (put_info, other) refl

after_routed_info :
    {K : Type 0} (c : ℕ) (r : Routed) (w : Connections K)
    → (after_routed c r w).0.infos ≡ put_info c (some (info_of r)) w.infos
unfolding after_routed
after_routed_info c (continue info) w = refl
after_routed_info c (replied info reply) w = refl

module _ {K : Type 0} (ext : External K) (cfg : ServerConfig) where
  call-put_info :
      (c : ℕ) (calls : Calls) (req : Request) (memory : Bool) (part : Bytes) (w : Connections K)
      (body : Option Bytes)
      → w.infos c ≡ body
      → (call ext cfg c calls req memory part w).0.infos
        ≡ put_info c (body_after (called c calls req memory part) body) w.infos
  unfolding body_after api_router call
  call-put_info c calls req memory part w none e = rw (call, e) refl
  call-put_info c calls req memory [] w (some info) e = rw (call, e) (after_routed_info c _ _)
  call-put_info c calls req memory (b ∷ part) w (some info) e =
      rw (call, e) (after_routed_info c _ _)

  -- An event sets the body of its own connection.
  handle-put_info :
      (e : Event) (w : Connections K)
      → (handle ext cfg e w).infos
        ≡ put_info (connection_of e) (body_after e (w.infos (connection_of e))) w.infos
  unfolding handle request_completed body_after
  handle-put_info (called c calls req memory part) w =
      call-put_info c calls req memory part w (w.infos c) refl
  handle-put_info (completed c) w = refl

  -- Whatever the events of all connections are, in whatever order, the body of a connection is what
  -- its own events make of the body that it had.
  pub handle_all-own :
      (c : ℕ) (es : List Event) (w : Connections K)
      → (handle_all ext cfg es w).infos c ≡ body_after_all (own c es) (w.infos c)
  unfolding handle_all own body_after_all
  handle_all-own c [] w = refl
  handle_all-own c (e ∷ es) w = elim (Bool-cases (c == connection_of e)) [
    | inl mine ↦
        let same = sym ((==_iff c (connection_of e)).0 mine) in
        rw
          (
            handle_all-own c es (handle ext cfg e w),
            handle-put_info e w,
            mine,
            same,
            put_info_same c,
          )
          refl
    | inr other ↦
        rw
          (
            handle_all-own c es (handle ext cfg e w),
            handle-put_info e w,
            other,
            put_info_other (connection_of e) c _ w.infos other,
          )
          refl
  ]
