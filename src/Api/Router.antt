-- ===== src/Api/Router.antt =====
-- api_router: libmicrohttpd calls it once when a request begins, once for each part of the body,
-- and once at the end.
pub mod Body
use wg_auth.Base.{
  ℕ, ◌+◌, Bool, true, false, not, ◌&&◌, List, [], ◌∷◌, ◌++◌, Option, none, some, Bytes, codes,
  str_eq, ltb, ◌==◌, if◌then◌else◌, length,
}
use wg_auth.Api.{ClientAddress, send_error}
use wg_auth.Api.Login.{handle_login}
use wg_auth.Api.Logout.{handle_logout}
use wg_auth.Api.Renew.{handle_renew}
use wg_auth.Api.Status.{handle_status}
use wg_auth.Config.{ServerConfig}
use wg_auth.External.{External}
use wg_auth.Server.{Server, Calls, Reply}

abbrev pub max_body_size : ℕ
max_body_size = 4096

-- The request line, the Authorization header and the peer's address.
pub record Request : Type 0 where
  pub method : Bytes
  pub url : Bytes
  pub authorization : Option Bytes
  pub address : ClientAddress

-- What one call does: it goes on with this connection_info (MHD_YES), or a response is queued.
pub data Routed : Type 0 where
  continue : Bytes → Routed
  replied : Bytes → Reply → Routed

-- A part of the body that is not empty. `memory` says whether realloc succeeds; without it the part
-- is dropped.
unfoldable pub take_part : Calls → Bool → Bytes → Bytes → Routed
take_part calls memory info part =
    if ltb max_body_size (length info + length part)
    then replied info (send_error calls "Request body too large" 413)
    else if not memory
    then continue info
    else continue (info ++ part)

-- A body ends, for the handlers, at its first NUL.
unfoldable pub c_string : Bytes → Bytes
c_string [] = []
c_string (c ∷ s) = if c == 0 then [] else c ∷ c_string s

module _ {K : Type 0} (ext : External K) (cfg : ServerConfig) (calls : Calls) where
  unfoldable pub dispatch : Request → Bytes → Server K → Server K × Reply
  dispatch req info st =
      if str_eq req.method (codes "POST") && str_eq req.url (codes "/login")
      then handle_login ext cfg calls req.address (c_string info) st
      else if str_eq req.method (codes "POST") && str_eq req.url (codes "/logout")
      then handle_logout ext cfg calls (c_string info) st
      else if str_eq req.method (codes "POST") && str_eq req.url (codes "/renew")
      then handle_renew ext cfg calls (c_string info) st
      else if str_eq req.method (codes "GET") && str_eq req.url (codes "/status")
      then (st, handle_status ext cfg calls req.authorization st)
      else (st, send_error calls "Not found" 404)

  -- The first call allocates the connection_info; an empty part marks the end of the request.
  unfoldable pub api_router : Request → Option Bytes → Bool → Bytes → Server K → Server K × Routed
  api_router req none memory part st = (st, continue [])
  api_router req (some info) memory [] st =
      let (st', reply) = dispatch req info st in (st', replied info reply)
  api_router req (some info) memory (c ∷ part) st = (st, take_part calls memory info (c ∷ part))
