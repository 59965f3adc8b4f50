-- ===== src/Api/Router/Body.antt =====
-- The body of a request, gathered from its parts.
use wg_auth.Base.{
  ◌+◌, ◌≤◌, ◌<◌, ◌≡◌, refl, ◌∙◌, true, List, [], ◌∷◌, ◌++◌, Option, none, some, Bytes, Bool-cases,
  inl, inr, arith, leb, ltb, if◌then◌else◌, length, length-append,
}
use wg_auth.Api.Router.{max_body_size, continue, replied, take_part}
use wg_auth.Server.{Calls}
use mathlib.Core.List.{append_assoc, append-nil}

-- The connection_info after these parts; `none` once a response is queued.
unfoldable pub gather : Calls → List Bytes → Bytes → Option Bytes
gather calls [] info = some info
gather calls (part ∷ parts) info = elim (take_part calls true info part) [
  | continue info' ↦ gather calls parts info'
  | replied info' reply ↦ none
]

-- All parts, one behind the other.
unfoldable pub joined : List Bytes → Bytes
joined [] = []
joined (part ∷ parts) = part ++ joined parts

gather_none : (calls : Calls) (info : Bytes) → gather calls [] info ≡ some info
unfolding gather
gather_none calls info = refl

-- A part that fits is added to the body.
gather_more :
    (calls : Calls) (part : Bytes) (parts : List Bytes) (info : Bytes)
    → length info + length part ≤ max_body_size
    → gather calls (part ∷ parts) info ≡ gather calls parts (info ++ part)
unfolding gather take_part
gather_more calls part parts info fits = ground arith

gather_over :
    (calls : Calls) (part : Bytes) (parts : List Bytes) (info : Bytes)
    → max_body_size < length info + length part
    → gather calls (part ∷ parts) info ≡ none
unfolding gather take_part
gather_over calls part parts info over = ground arith

-- The parts of a request, added one by one to an empty connection_info where memory suffices, give
-- their concatenation if that has at most 4096 bytes, and otherwise a response is queued on the
-- way. The same holds from any body of at most 4096 bytes on.
pub gather-joined :
    (calls : Calls) (parts : List Bytes) (info : Bytes)
    → length info ≤ max_body_size
    → gather calls parts info ≡ (
        if leb (length info + length (joined parts)) max_body_size
        then some (info ++ joined parts)
        else none)
unfolding joined
gather-joined calls [] info h = rw (append-nil info) (ground (arith, gather_none calls info))
gather-joined calls (part ∷ parts) info h =
    elim (Bool-cases (ltb max_body_size (length info + length part))) [
      | inl over ↦
          gather_over calls part parts info (ground (arith, over))
          ∙ ground (arith, length-append part (joined parts))
      | inr fits ↦
          gather_more calls part parts info (ground (arith, fits))
          ∙ gather-joined calls parts (info ++ part) (ground (arith, fits, length-append info part))
          ∙ rw
              (
                append_assoc info part (joined parts),
                length-append info part,
                length-append part (joined parts),
              )
              (ground arith)
    ]
