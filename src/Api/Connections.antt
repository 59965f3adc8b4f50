-- ===== src/Api/Connections.antt =====
-- The connections of libmicrohttpd: api_router with the con_cls that libmicrohttpd keeps for each
-- of them, and request_completed. One thread calls these for all connections, in any order.
pub mod Bodies
pub mod Requests
pub mod Bounds
use wg_auth.Base.{
  ℕ, ◌≡◌, Bool, true, false, List, [], ◌∷◌, Option, none, some, Bytes, ◌==◌, if◌then◌else◌, All,
}
use wg_auth.Api.Router.{Request, Routed, continue, replied, api_router}
use wg_auth.Config.{ServerConfig}
use wg_auth.Db.{runs}
use wg_auth.External.{External}
use wg_auth.Server.{Server, Calls, Reply}

-- The number of the connection, and for a call of api_router what it meets, whether calloc or
-- realloc has memory for it, and the part of the body that it is given.
pub data Event : Type 0 where
  called : ℕ → Calls → Request → Bool → Bytes → Event
  completed : ℕ → Event

abbrev pub connection_of : Event → ℕ
connection_of (called c calls req memory part) = c
connection_of (completed c) = c

-- What the handlers share, and the body in the connection_info of each connection; `none` is a
-- con_cls that is NULL.
pub record Connections (K : Type 0) : Type 0 where
  pub server : Server K
  pub infos : ℕ → Option Bytes

-- What libmicrohttpd is told of a part: it is still unread, and will be given again; it is taken;
-- or a response is queued.
pub data Verdict : Type 0 where
  unread taken : Verdict
  answered : Reply → Verdict

unfoldable pub put_info : ℕ → Option Bytes → (ℕ → Option Bytes) → ℕ → Option Bytes
put_info c info infos k = if k == c then info else infos k

-- `*con_cls = calloc(...)`
abbrev pub new_info : Bool → Option Bytes
new_info memory = if memory then some [] else none

unfoldable pub after_routed : {K : Type 0} → ℕ → Routed → Connections K → Connections K × Verdict
after_routed c (continue info) w = (record w { infos = put_info c (some info) w.infos }, taken)
after_routed c (replied info reply) w =
    (record w { infos = put_info c (some info) w.infos }, answered reply)

module _ {K : Type 0} (ext : External K) (cfg : ServerConfig) where
  unfoldable pub call : ℕ → Calls → Request → Bool → Bytes → Connections K → Connections K × Verdict
  call c calls req memory part w = elim (w.infos c) [
    | none ↦ (record w { infos = put_info c (new_info memory) w.infos }, unread)
    | some info ↦
        let (st, outcome) = api_router ext cfg calls req (some info) memory part w.server in
        after_routed c outcome (record w { server = st })
  ]

  -- libmicrohttpd itself clears the con_cls of a request that is over.
  unfoldable pub request_completed : ℕ → Connections K → Connections K
  request_completed c w = record w { infos = put_info c none w.infos }

  unfoldable pub handle : Event → Connections K → Connections K
  handle (called c calls req memory part) w = (call c calls req memory part w).0
  handle (completed c) w = request_completed c w

  unfoldable pub handle_all : List Event → Connections K → Connections K
  handle_all [] w = w
  handle_all (e ∷ es) w = handle_all es (handle e w)
