-- ===== src/Tests/Connections.antt =====
-- Two connections whose requests overlap.
use wg_auth.Base.{ℕ, ◌≤◌, ◌≡◌, refl, true, false, List, [], ◌∷◌, none, some, codes, arith, length}
use wg_auth.Api.Connections.Bodies.{own}
use wg_auth.Api.Connections.Bounds.{Fits, bodies_bounded}
use wg_auth.Api.Connections.Requests.{Uploads, refused, opened, sends, all_sent, request_answered}
use wg_auth.Api.Connections.{
  Event, called, completed, Connections, answered, put_info, call, handle, handle_all,
  request_completed, after_routed,
}
use wg_auth.Api.Router.Body.{joined}
use wg_auth.Api.Router.{Request, dispatch, api_router, take_part}
use wg_auth.External.{WgDevice}
use wg_auth.Tests.Servers.{st0, client}
use wg_auth.Tests.World.{ext, cfg, calls_at}

abbrev posting : Request
posting = record {
  method = codes "POST";
  url = codes "/login";
  authorization = none;
  address = client;
}

abbrev idle : Connections (List WgDevice)
idle = record { server = st0; infos = λ c. none }

-- Ann's login on connection 1, whose first call finds no memory, beside a request on connection 2
-- that ends before its body has come.
abbrev overlapping : List Event
overlapping =
    called 1 (calls_at 100 7) posting false (codes "sec")
    ∷ called 2 (calls_at 100 7) posting true []
    ∷ called 1 (calls_at 100 7) posting true (codes "sec")
    ∷ called 1 (calls_at 100 7) posting true (codes "sec")
    ∷ called 2 (calls_at 100 7) posting true (codes "gone")
    ∷ called 1 (calls_at 100 7) posting true (codes "ret")
    ∷ completed 2
    ∷ []

anns_parts : Uploads 1 posting (codes "sec" ∷ codes "ret" ∷ []) (own 1 overlapping)
unfolding own
anns_parts = refused _ _ _ (opened _ _ _ (sends _ _ _ _ _ (sends _ _ _ _ _ all_sent)))

short : length (joined (codes "sec" ∷ codes "ret" ∷ [])) ≤ 4096
unfolding joined
short = omega arith

request_answered_example :
    let v = handle_all ext cfg overlapping idle in
    let (st, reply) =
      dispatch ext cfg
        (calls_at 100 7)
        posting
        (joined (codes "sec" ∷ codes "ret" ∷ []))
        v.server in
    call ext cfg 1 (calls_at 100 7) posting true [] v ≡ (
      record {
        server = st;
        infos = put_info 1 (some (joined (codes "sec" ∷ codes "ret" ∷ []))) v.infos;
      },
      answered reply,
    )
request_answered_example =
    request_answered ext cfg 1 posting (codes "sec" ∷ codes "ret" ∷ []) overlapping idle
      (calls_at 100 7) true refl anns_parts short

nothing_stored : (c : ℕ) → Fits (idle.infos c)
nothing_stored c info e = cc

gathered : (handle_all ext cfg overlapping idle).infos 1 ≡ some (codes "secret")
unfolding handle_all handle call put_info request_completed after_routed api_router take_part
gathered = refl

bodies_bounded_example : length (codes "secret") ≤ 4096
bodies_bounded_example =
    bodies_bounded ext cfg overlapping idle nothing_stored 1 (codes "secret") gathered
