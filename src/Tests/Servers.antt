-- ===== src/Tests/Servers.antt =====
-- Runs of the daemon: a start, a login, and what comes after it.
use wg_auth.Base.{List, ◌≡◌, refl, true, [], some, Bytes, codes, replicate}
use wg_auth.Api.Login.Grant.{handle_login-IsExclusive}
use wg_auth.Api.Login.{handle_login}
use wg_auth.Api.{ClientAddress, inet_address}
use wg_auth.Daemon.Safety.{Reachable-IsExclusive}
use wg_auth.Daemon.{Boot, pool_cidr, fresh_server, start_pooled, start, Reachable, starts}
use wg_auth.Db.{runs, db_revoke_all_active_sessions}
use wg_auth.External.{WgDevice}
use wg_auth.Leases.{IsExclusive}
use wg_auth.Server.{Server}
use wg_auth.Tests.Pools.{pool0, made0}
use wg_auth.Tests.World.{net-laws, ext, cfg, one_account, calls_at}

abbrev pub boot : Boot (List WgDevice)
boot = record {
  sodium_ready = true;
  opened = some one_account;
  kernel = [];
  revoke_run = runs;
  api_starts = true;
  reaper_starts = true;
}

-- The server after the start.
abbrev pub st0 : Server (List WgDevice)
st0 = fresh_server ext cfg boot pool0 (db_revoke_all_active_sessions runs one_account)

started0 : start ext cfg boot ≡ some st0
unfolding start start_pooled pool_cidr
started0 = rw (start, made0) refl

pub reached0 : Reachable ext cfg st0
reached0 = starts boot one_account st0 refl tt tt refl started0

pub exclusive0 : IsExclusive ext.net st0.pool st0.db
exclusive0 = Reachable-IsExclusive ext net-laws cfg st0 reached0

abbrev pub client : ClientAddress
client = inet_address 5

-- The server after Ann has logged in at the time 100, with 7 as every random byte.
abbrev pub st1 : Server (List WgDevice)
st1 = (handle_login ext cfg (calls_at 100 7) client (codes "secret") st0).0

pub exclusive1 : IsExclusive ext.net st1.pool st1.db
exclusive1 =
    handle_login-IsExclusive ext net-laws cfg (calls_at 100 7) client (codes "secret") st0
      exclusive0

-- Her token.
abbrev pub token : Bytes
token = replicate 32 7
