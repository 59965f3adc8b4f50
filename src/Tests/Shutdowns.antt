-- ===== src/Tests/Shutdowns.antt =====
-- The shutdown of the daemon, at concrete values.
use wg_auth.Base.{◌≤◌, ◌≡◌, ◌≢◌, refl, true, false, List, [], none, some, codes, arith}
use wg_auth.Daemon.Life.Order.{threads_outlived}
use wg_auth.Daemon.Life.Passes.{passes, one_more_pass}
use wg_auth.Daemon.Life.Shutdown.{Ends, shutdown-Ends}
use wg_auth.Daemon.Life.{
  joining, finished, Life, Actor, nobody, MayAct, running, Lived, started, lives, acts, looks,
  begins, LivesOn, so_far, and_then, interrupted, leaves,
}
use wg_auth.Daemon.Threads.{at, waiting, reaping, ticks, lists}
use wg_auth.Daemon.{start, start_pooled, pool_cidr}
use wg_auth.Db.{
  all_listed, db_get_expired_sessions, filter, db_revoke_all_active_sessions, revoke_active,
}
use wg_auth.External.{WgDevice}
use wg_auth.IpPool.Shape.{IsReady}
use wg_auth.Tests.Pools.{made0}
use wg_auth.Tests.Servers.{boot, st0}
use wg_auth.Tests.World.{net-laws, ext, cfg, one_account}

booted : start ext cfg boot ≡ some st0
unfolding start start_pooled pool_cidr
booted = rw (start, made0) refl

abbrev on_tick : Life (List WgDevice)
on_tick = running (at st0 150 waiting) (some (codes "key")) none

abbrev looked : Life (List WgDevice)
looked = record on_tick { checked = true }

abbrev stopped_by_signal : Life (List WgDevice)
stopped_by_signal = record looked { keep_running = false; stop_flag = true; main = joining }

abbrev last_pass : Life (List WgDevice)
last_pass = record stopped_by_signal { system = at st0 150 (reaping []); checked = false }

listed_none : db_get_expired_sessions all_listed 120 st0.db ≡ some []
unfolding db_get_expired_sessions filter db_revoke_all_active_sessions revoke_active
listed_none = refl

-- The reaper has looked at the flag just before main sets it.
one_pass : LivesOn ext cfg stopped_by_signal last_pass
one_pass = and_then stopped_by_signal _ so_far (
    begins stopped_by_signal _ (lists all_listed 120 [] st0 150 (omega arith) listed_none) refl refl
      refl)

-- A start, a signal after fifty seconds, and a pass of the reaper that begins although main waits
-- for its thread.
signalled : Lived ext cfg last_pass
signalled =
    lives _ _
      (lives _ _
        (lives _ _
          (lives _ _
            (lives _ _
              (started boot one_account st0 100 (some (codes "key")) none refl tt tt refl booted)
              (acts (running (at st0 100 waiting) (some (codes "key")) none) _
                (ticks st0 100 150 waiting (omega arith)) tt refl))
            (looks on_tick refl refl refl))
          (interrupted looked))
        (leaves _ refl refl))
      (begins stopped_by_signal _ (lists all_listed 120 [] st0 150 (omega arith) listed_none) refl
        refl refl)

threads_outlived_example :
    ((a : Actor)
      → a ≢ nobody
      → MayAct ext cfg a last_pass
      → (last_pass.db_open ≡ true) × IsReady last_pass.system.server.pool)
    × (last_pass.main ≡ finished
        → (last_pass.reaper_runs ≡ false)
          × (last_pass.api_runs ≡ false)
          × (last_pass.db_open ≡ false)
          × (last_pass.system.server.pool.bitmap ≡ [])
          × (last_pass.tls_key_pem ≡ none)
          × (last_pass.tls_cert_pem ≡ none))
threads_outlived_example = threads_outlived ext net-laws cfg last_pass signalled

shutdown-Ends_example : Ends ext cfg last_pass
shutdown-Ends_example = shutdown-Ends ext cfg last_pass signalled

one_more_pass_example : passes ext cfg one_pass ≤ 1
one_more_pass_example = one_more_pass ext cfg stopped_by_signal last_pass one_pass refl
