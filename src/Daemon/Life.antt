-- ===== src/Daemon/Life.antt =====
-- server/src/main.c from the end of the start on, with the starting and stopping of the two threads
-- in reaper.c and api_handlers.c: the signal, the order of the shutdown, and what the threads do
-- meanwhile.
pub mod Order
pub mod Shutdown
pub mod Passes
use wg_auth.Base.{ℕ, ◌≡◌, ◌≢◌, Bool, true, false, Option, none, some, Bytes, [], ◌∷◌}
use wg_auth.Config.{ServerConfig}
use wg_auth.Daemon.Threads.{
  System, at, waiting, Move, ticks, calls, lists, removes, releases, revokes, logs, sleeps,
}
use wg_auth.Daemon.{Boot, start}
use wg_auth.Db.Rows.{UniqueIds, IdsBelow}
use wg_auth.Db.{Db, runs}
use wg_auth.External.{External}
use wg_auth.IpPool.{ip_pool_destroy}
use wg_auth.Server.{Server}

-- Where main stands: in its loop, in the pthread_join of reaper_stop, before api_stop, db_close and
-- ip_pool_destroy, and at its end.
pub data Main : Type 0 where
  watching joining stopping closing destroying finished : Main

-- The process: what the threads share, the flags, which threads run, whether the tables are open,
-- where main stands, and the two texts that api_start has read.
pub record Life (K : Type 0) : Type 0 where
  pub system : System K
  pub keep_running : Bool
  pub stop_flag : Bool
  -- The reaper has found that it may make a pass.
  pub checked : Bool
  pub reaper_runs : Bool
  pub api_runs : Bool
  pub db_open : Bool
  pub main : Main
  pub tls_key_pem : Option Bytes
  pub tls_cert_pem : Option Bytes

-- Who makes a move of the threads.
pub data Actor : Type 0 where
  nobody api reaper : Actor

-- main, once both threads have been started, with the private key and the certificate.
abbrev pub running : {K : Type 0} → System K → Option Bytes → Option Bytes → Life K
running s key cert = record {
  system = s;
  keep_running = true;
  stop_flag = false;
  checked = false;
  reaper_runs = true;
  api_runs = true;
  db_open = true;
  main = watching;
  tls_key_pem = key;
  tls_cert_pem = cert;
}

-- MHD_stop_daemon returns once its thread has ended.
abbrev pub api_stop : {K : Type 0} → Life K → Life K
api_stop l = record l { api_runs = false; tls_key_pem = none; tls_cert_pem = none }

-- reaper_stop, before it joins the thread.
abbrev pub ask_reaper : {K : Type 0} → Life K → Life K
ask_reaper l = record l { stop_flag = true }

abbrev pub db_close : {K : Type 0} → Life K → Life K
db_close l = record l { db_open = false }

abbrev pub destroyed : {K : Type 0} → System K → System K
destroyed s = record s { server = record (s.server) { pool = ip_pool_destroy s.server.pool } }

module _ {K : Type 0} (ext : External K) (cfg : ServerConfig) where
  abbrev pub actor : {s t : System K} → Move ext cfg s t → Actor
  actor (ticks st clock now pc c) = nobody
  actor (calls st t clock pc c) = api
  actor (lists run now copies st clock c listed) = reaper
  actor (removes stack sess rest st clock) = reaper
  actor (releases sess rest st clock) = reaper
  actor (revokes run sess rest st clock) = reaper
  actor (logs run now sess rest st clock) = reaper
  actor (sleeps st clock) = reaper

  abbrev pub MayAct : Actor → Life K → Type 0
  MayAct nobody l = Unit {0}
  MayAct api l = l.api_runs ≡ true
  MayAct reaper l = l.reaper_runs ≡ true

  -- The call with which the reaper begins a pass.
  abbrev pub begins_pass : {s t : System K} → Move ext cfg s t → Bool
  begins_pass (ticks st clock now pc c) = false
  begins_pass (calls st t clock pc c) = false
  begins_pass (lists run now copies st clock c listed) = true
  begins_pass (removes stack sess rest st clock) = false
  begins_pass (releases sess rest st clock) = false
  begins_pass (revokes run sess rest st clock) = false
  begins_pass (logs run now sess rest st clock) = false
  begins_pass (sleeps st clock) = false

  -- A step of one of the threads, or of main.
  pub data Lives : Life K → Life K → Type 0 where
    acts :
        (l : Life K) (t : System K) (move : Move ext cfg l.system t)
        → MayAct (actor move) l
        → begins_pass move ≡ false
        → Lives l (record l { system = t })
    -- The reaper looks at stop_flag, then at the sessions; the list may fail.
    looks :
        (l : Life K)
        → l.reaper_runs ≡ true
        → l.stop_flag ≡ false
        → l.system.reaper ≡ waiting
        → Lives l (record l { checked = true })
    begins :
        (l : Life K) (t : System K) (move : Move ext cfg l.system t)
        → l.reaper_runs ≡ true
        → begins_pass move ≡ true
        → l.checked ≡ true
        → Lives l (record l { system = t; checked = false })
    lists_nothing :
        (l : Life K)
        → l.reaper_runs ≡ true
        → l.checked ≡ true
        → Lives l (record l { checked = false })
    -- The signal handler.
    interrupted : (l : Life K) → Lives l (record l { keep_running = false })
    leaves :
        (l : Life K)
        → l.main ≡ watching
        → l.keep_running ≡ false
        → Lives l (record (ask_reaper l) { main = joining })
    -- The reaper's thread returns.
    quits :
        (l : Life K)
        → l.reaper_runs ≡ true
        → l.stop_flag ≡ true
        → l.checked ≡ false
        → l.system.reaper ≡ waiting
        → Lives l (record l { reaper_runs = false })
    joins :
        (l : Life K)
        → l.main ≡ joining
        → l.reaper_runs ≡ false
        → Lives l (record l { main = stopping })
    stops : (l : Life K) → l.main ≡ stopping → Lives l (record (api_stop l) { main = closing })
    closes : (l : Life K) → l.main ≡ closing → Lives l (record (db_close l) { main = destroying })
    destroys :
        (l : Life K)
        → l.main ≡ destroying
        → Lives l (record l { main = finished; system = destroyed l.system })

  -- Any number of steps.
  pub data LivesOn (l : Life K) : Life K → Type 0 where
    so_far : LivesOn l l
    and_then : (m n : Life K) → LivesOn l m → Lives m n → LivesOn l n

  -- The states that a daemon comes to, started on tables whose ids SQLite keeps apart.
  pub data Lived : Life K → Type 0 where
    started :
        (boot : Boot K) (db : Db) (st : Server K) (clock : ℕ) (key cert : Option Bytes)
        → boot.opened ≡ some db
        → UniqueIds db.sessions
        → IdsBelow db.next_session db.sessions
        → boot.revoke_run ≡ runs
        → start ext cfg boot ≡ some st
        → Lived (running (at st clock waiting) key cert)
    lives : (l m : Life K) → Lived l → Lives l m → Lived m
