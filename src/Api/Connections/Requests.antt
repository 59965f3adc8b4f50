-- ===== src/Api/Connections/Requests.antt =====
-- A request among those of other connections.
use wg_auth.Base.{
  ℕ, ◌≤◌, ◌+◌, ◌≡◌, refl, ◌∙◌, Bool, true, false, List, [], ◌∷◌, ◌++◌, none, some, Bytes, length,
  length-append, arith,
}
use wg_auth.Api.Connections.Bodies.{own, body_after, body_after_all, handle_all-own}
use wg_auth.Api.Connections.{
  Event, called, Connections, answered, put_info, after_routed, call, handle_all,
}
use wg_auth.Api.Router.Body.{joined}
use wg_auth.Api.Router.{Request, take_part, api_router, max_body_size, dispatch}
use wg_auth.Config.{ServerConfig}
use wg_auth.External.{External}
use wg_auth.Server.{Calls}
use mathlib.Core.List.{append_assoc, append-nil}

-- The parts of a body, none of them empty, where realloc has memory.
pub data Sends (c : ℕ) (req : Request) : List Bytes → List Event → Type 0 where
  all_sent : Sends c req [] []
  sends :
      (calls : Calls) (b : ℕ) (part : Bytes) (parts : List Bytes) (es : List Event)
      → Sends c req parts es
      → Sends c req ((b ∷ part) ∷ parts) (called c calls req true (b ∷ part) ∷ es)

-- The calls for a request up to the last part of its body: until calloc has memory, nothing is
-- taken.
pub data Uploads (c : ℕ) (req : Request) (parts : List Bytes) : List Event → Type 0 where
  refused :
      (calls : Calls) (part : Bytes) (es : List Event)
      → Uploads c req parts es
      → Uploads c req parts (called c calls req false part ∷ es)
  opened :
      (calls : Calls) (part : Bytes) (es : List Event)
      → Sends c req parts es
      → Uploads c req parts (called c calls req true part ∷ es)

part_taken :
    (c : ℕ) (calls : Calls) (req : Request) (b : ℕ) (part info : Bytes)
    → length info + length (b ∷ part) ≤ max_body_size
    → body_after (called c calls req true (b ∷ part)) (some info) ≡ some (info ++ (b ∷ part))
unfolding body_after take_part
part_taken c calls req b part info fits = ground (arith, fits)

Sends-joined :
    (c : ℕ) (req : Request) (parts : List Bytes) (es : List Event) (info : Bytes)
    → Sends c req parts es
    → length info + length (joined parts) ≤ max_body_size
    → body_after_all es (some info) ≡ some (info ++ joined parts)
unfolding joined body_after_all
Sends-joined c req _ _ info all_sent fits = rw (append-nil info) refl
Sends-joined c req _ _ info (sends calls b part parts es more) fits =
    let split = length-append (b ∷ part) (joined parts) in
    rw (part_taken c calls req b part info (omega (arith, fits, split))) (
      Sends-joined c req parts es (info ++ (b ∷ part)) more
        (rw (length-append info (b ∷ part)) (omega (arith, fits, split)))
      ∙ rw (append_assoc info (b ∷ part) (joined parts)) refl)

Uploads-joined :
    (c : ℕ) (req : Request) (parts : List Bytes) (es : List Event)
    → Uploads c req parts es
    → length (joined parts) ≤ max_body_size
    → body_after_all es none ≡ some (joined parts)
unfolding body_after_all body_after
Uploads-joined c req parts _ (refused calls part es more) fits =
    Uploads-joined c req parts es more fits
Uploads-joined c req parts _ (opened calls part es more) fits =
    Sends-joined c req parts es [] more (omega (arith, fits))

module _ {K : Type 0} (ext : External K) (cfg : ServerConfig) where
  -- A request whose body has at most 4096 bytes, and for each of whose parts realloc has memory,
  -- on a connection that has no body yet: whatever the
  -- other connections send meanwhile, and however often calloc has failed before the first part,
  -- the last call for it is answered as the handler of its URL answers the whole body, and changes
  -- the server as that handler does.
  pub request_answered :
      (c : ℕ) (req : Request) (parts : List Bytes) (es : List Event) (w : Connections K)
      (calls : Calls) (memory : Bool)
      → w.infos c ≡ none
      → Uploads c req parts (own c es)
      → length (joined parts) ≤ max_body_size
      → let v = handle_all ext cfg es w in
        let (st, reply) = dispatch ext cfg calls req (joined parts) v.server in
        call ext cfg c calls req memory [] v
        ≡ (record { server = st; infos = put_info c (some (joined parts)) v.infos }, answered reply)
  unfolding call api_router after_routed
  request_answered c req parts es w calls memory fresh sent fits =
      let gathered = handle_all-own ext cfg c es w in
      let body = Uploads-joined c req parts (own c es) sent fits in
      rw (call, gathered, fresh, body) refl
