-- ===== src/Daemon/Threads.antt =====
-- The two threads of the daemon, libmicrohttpd's and the reaper's, call by call: the reaper works
-- through its list while the calls of the handlers come in between.
use wg_auth.Base.{ℕ, ◌≤◌, ◌≡◌, List, [], ◌∷◌, Option, some, Bytes, codes}
use wg_auth.Config.{ServerConfig}
use wg_auth.Db.{
  Session, Run, ListRun, db_get_expired_sessions, db_revoke_session, db_log_audit,
  db_create_session, db_update_session_expiry,
}
use wg_auth.External.{External}
use wg_auth.IpPool.{ip_pool_allocate, ip_pool_release}
use wg_auth.RateLimit.{check_rate_limit, record_login_failure}
use wg_auth.Reaper.{remove_key}
use wg_auth.Server.{Server}
use wg_auth.WgCtl.{wgctl_add_peer, wgctl_remove_peer}

-- Where the reaper stands: asleep; at the head of its loop, with the rest of its list; and before
-- each of the calls that it makes for one session.
pub data Reaper : Type 0 where
  waiting : Reaper
  reaping : List Session → Reaper
  releasing revoking logging : Session → List Session → Reaper

pub record System (K : Type 0) : Type 0 where
  pub server : Server K
  pub clock : ℕ
  pub reaper : Reaper

abbrev pub at : {K : Type 0} → Server K → ℕ → Reaper → System K
at st clock pc = record { server = st; clock = clock; reaper = pc }

module _ {K : Type 0} (ext : External K) (cfg : ServerConfig) where
  abbrev pub removed : Bytes → Session → Server K → Server K
  removed stack sess st = record st {
    kernel = remove_key ext cfg stack sess.device_pubkey st.kernel;
  }

  abbrev pub released : Session → Server K → Server K
  released sess st = record st { pool = (ip_pool_release ext.net sess.allowed_ip st.pool).0 }

  abbrev pub revoked : Run → Session → Server K → Server K
  revoked run sess st = record st { db = (db_revoke_session run sess.id st.db).0 }

  abbrev pub logged : Run → ℕ → Session → Server K → Server K
  logged run now sess st = record st {
    db = (db_log_audit run now sess.account_id (codes "expired") sess.allowed_ip st.db).0;
  }

  -- One call of a handler that changes what the threads share, with any arguments.
  pub data HandlerCall : Server K → Server K → Type 0 where
    checks :
        (now : ℕ) (ip : Bytes) (st : Server K)
        → HandlerCall st (record st { fails = (check_rate_limit now ip st.fails).1 })
    records :
        (now : ℕ) (ip : Bytes) (st : Server K)
        → HandlerCall st (record st { fails = record_login_failure now ip st.fails })
    allocates :
        (size : ℕ) (st : Server K)
        → HandlerCall st (record st { pool = (ip_pool_allocate ext.net size st.pool).0 })
    frees :
        (ip : Bytes) (st : Server K)
        → HandlerCall st (record st { pool = (ip_pool_release ext.net ip st.pool).0 })
    adds_peer :
        (key ip : Bytes) (psk : Option Bytes) (st : Server K)
        → HandlerCall st (record st {
          kernel = (wgctl_add_peer ext.net ext.wg cfg.wg_interface key psk ip st.kernel).0;
        })
    drops_peer :
        (key : Bytes) (st : Server K)
        → HandlerCall st
            (record st { kernel = (wgctl_remove_peer ext.wg cfg.wg_interface key st.kernel).0 })
    inserts :
        (run : Run) (now account : ℕ) (pubkey ip token : Bytes) (expires_at : ℕ) (st : Server K)
        → HandlerCall st (record st {
          db = (db_create_session run now account pubkey ip token expires_at st.db).0;
        })
    ends :
        (run : Run) (id : ℕ) (st : Server K)
        → HandlerCall st (record st { db = (db_revoke_session run id st.db).0 })
    extends :
        (run : Run) (id expires_at : ℕ) (st : Server K)
        → HandlerCall st (record st { db = (db_update_session_expiry run id expires_at st.db).0 })
    audits :
        (run : Run) (now account : ℕ) (action detail : Bytes) (st : Server K)
        → HandlerCall st (record st { db = (db_log_audit run now account action detail st.db).0 })

  -- The calls of the handlers come between those of the reaper in any order, with any arguments: no
  -- lock is held across a request or across a pass. The mutex of the pool and SQLite make each call
  -- one move.
  pub data Move : System K → System K → Type 0 where
    ticks :
        (st : Server K) (clock now : ℕ) (pc : Reaper)
        → clock ≤ now
        → Move (at st clock pc) (at st now pc)
    calls :
        (st st' : Server K) (clock : ℕ) (pc : Reaper)
        → HandlerCall st st'
        → Move (at st clock pc) (at st' clock pc)
    lists :
        (run : ListRun) (now : ℕ) (copies : List Session) (st : Server K) (clock : ℕ)
        → now ≤ clock
        → db_get_expired_sessions run now st.db ≡ some copies
        → Move (at st clock waiting) (at st clock (reaping copies))
    removes :
        (stack : Bytes) (sess : Session) (rest : List Session) (st : Server K) (clock : ℕ)
        → Move
            (at st clock (reaping (sess ∷ rest)))
            (at (removed stack sess st) clock (releasing sess rest))
    releases :
        (sess : Session) (rest : List Session) (st : Server K) (clock : ℕ)
        → Move
            (at st clock (releasing sess rest))
            (at (released sess st) clock (revoking sess rest))
    revokes :
        (run : Run) (sess : Session) (rest : List Session) (st : Server K) (clock : ℕ)
        → Move
            (at st clock (revoking sess rest))
            (at (revoked run sess st) clock (logging sess rest))
    logs :
        (run : Run) (now : ℕ) (sess : Session) (rest : List Session) (st : Server K) (clock : ℕ)
        → Move (at st clock (logging sess rest)) (at (logged run now sess st) clock (reaping rest))
    sleeps : (st : Server K) (clock : ℕ) → Move (at st clock (reaping [])) (at st clock waiting)
