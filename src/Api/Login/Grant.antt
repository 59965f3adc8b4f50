-- ===== src/Api/Login/Grant.antt =====
-- A login keeps the leases exclusive, on every branch.
use wg_auth.Base.{refl, inl, inr, Bytes}
use wg_auth.Api.Login.Outcome.{handle_login_outcome}
use wg_auth.Api.Login.{handle_login}
use wg_auth.Api.{ClientAddress}
use wg_auth.Config.{ServerConfig}
use wg_auth.External.{External, InetLaws}
use wg_auth.Leases.Steps.{gain-IsExclusive, insert-IsExclusive, sessions-IsExclusive}
use wg_auth.Leases.{IsExclusive}
use wg_auth.Server.{Server, Calls}

module _ {K : Type 0} (ext : External K) (laws : InetLaws ext.net) (cfg : ServerConfig)
    (calls : Calls) where
  -- A login keeps the leases exclusive: no address gets a second holder, and an address with a
  -- holder stays marked.
  pub handle_login-IsExclusive :
      (address : ClientAddress) (body : Bytes) (st : Server K)
      → IsExclusive ext.net st.pool st.db
      → IsExclusive ext.net
          (handle_login ext cfg calls address body st).0.pool
          (handle_login ext cfg calls address body st).0.db
  handle_login-IsExclusive address body st x =
      elim (handle_login_outcome ext laws cfg calls address body st x.ready) [
        | inl (same, next, g, bad) ↦
            sessions-IsExclusive ext.net _ st.db _ same next
              (gain-IsExclusive ext.net laws st.pool _ st.db g.same g.kept x)
        | inr (json, acc, free, parsed, authentic, room, (j, lo, hi, g, added, next, told)) ↦
            insert-IsExclusive ext.net laws st.pool _ st.db _ j _ g lo hi refl refl refl added next
              x
      ]
