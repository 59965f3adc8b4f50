-- ===== src/Daemon/Life/Shutdown.antt =====
-- The way from any place of the process to its end.
use wg_auth.Base.{false, ℕ, ◌≡◌, refl, true, List, [], ◌∷◌, Bool-cases, inl, inr}
use wg_auth.Config.{ServerConfig}
use wg_auth.Daemon.Life.{
  Main, watching, joining, stopping, closing, destroying, finished, Life, Lives, acts, looks,
  begins, lists_nothing, interrupted, leaves, quits, joins, stops, closes, destroys, LivesOn,
  so_far, and_then, Lived, started, lives,
}
use wg_auth.Daemon.Threads.{
  Reaper, waiting, reaping, releasing, revoking, logging, at, removed, released, revoked, logged,
  removes, releases, revokes, logs, sleeps,
}
use wg_auth.Db.{Session, runs}
use wg_auth.External.{External}
use wg_auth.Server.{Server}

module _ {K : Type 0} (ext : External K) (cfg : ServerConfig) where
  -- The process can come to the end of main.
  abbrev pub Ends : Life K → Type 0
  Ends l = (m : Life K) × LivesOn ext cfg l m × (m.main ≡ finished)

  first_step : (l m n : Life K) → Lives ext cfg l m → LivesOn ext cfg m n → LivesOn ext cfg l n
  first_step l m _ s so_far = and_then l m so_far s
  first_step l m _ s (and_then v n on t) = and_then v n (first_step l m v s on) t

  step_on : (l m : Life K) → Lives ext cfg l m → Ends m → Ends l
  step_on l m s (n, on, e) = (n, first_step l m n s on, e)

  module _ (l : Life K) (clock : ℕ) (up : l.reaper_runs ≡ true) where
    abbrev with_reaper : Server K → Reaper → Life K
    with_reaper st pc = record l { system = at st clock pc }

    abbrev Rests : Type 0
    Rests = (st : Server K) → Ends (with_reaper st waiting)

    module _ (copy : Session) (rest : List Session)
        (further : (st : Server K) → Ends (with_reaper st (reaping rest))) where
      from_logging : (st : Server K) → Ends (with_reaper st (logging copy rest))
      from_logging st =
          step_on _ _
            (acts (with_reaper st (logging copy rest)) _ (logs runs clock copy rest st clock) up
              refl)
            (further (logged ext cfg runs clock copy st))

      from_revoking : (st : Server K) → Ends (with_reaper st (revoking copy rest))
      from_revoking st =
          step_on _ _
            (acts (with_reaper st (revoking copy rest)) _ (revokes runs copy rest st clock) up refl)
            (from_logging (revoked ext cfg runs copy st))

      from_releasing : (st : Server K) → Ends (with_reaper st (releasing copy rest))
      from_releasing st =
          step_on _ _
            (acts (with_reaper st (releasing copy rest)) _ (releases copy rest st clock) up refl)
            (from_revoking (released ext cfg copy st))

    -- A pass comes to its end.
    drained :
        (copies : List Session) → Rests → (st : Server K) → Ends (with_reaper st (reaping copies))
    drained [] k st =
        step_on _ _ (acts (with_reaper st (reaping [])) _ (sleeps st clock) up refl) (k st)
    drained (copy ∷ rest) k st =
        step_on _ _
          (acts (with_reaper st (reaping (copy ∷ rest))) _ (removes [] copy rest st clock) up refl)
          (from_releasing copy rest (drained rest k) (removed ext cfg [] copy st))

    rests : (pc : Reaper) → Rests → (st : Server K) → Ends (with_reaper st pc)
    rests waiting k st = k st
    rests (reaping copies) k st = drained copies k st
    rests (releasing copy rest) k st = from_releasing copy rest (drained rest k) st
    rests (revoking copy rest) k st = from_revoking copy rest (drained rest k) st
    rests (logging copy rest) k st = from_logging copy rest (drained rest k) st

  from_destroying : (l : Life K) → l.main ≡ destroying → Ends l
  from_destroying l e = step_on l _ (destroys l e) (_, so_far, refl)

  from_closing : (l : Life K) → l.main ≡ closing → Ends l
  from_closing l e = step_on l _ (closes l e) (from_destroying _ refl)

  from_stopping : (l : Life K) → l.main ≡ stopping → Ends l
  from_stopping l e = step_on l _ (stops l e) (from_closing _ refl)

  from_unchecked : (l : Life K) → l.main ≡ joining → l.stop_flag ≡ true → l.checked ≡ false → Ends l
  from_unchecked l e flag unchecked = elim (Bool-cases l.reaper_runs) [
    | inr ended ↦ step_on l _ (joins l e ended) (from_stopping _ refl)
    | inl up ↦
        rests l l.system.clock up l.system.reaper
          (λ st.
            step_on _ _ (quits (with_reaper l l.system.clock up st waiting) up flag unchecked refl)
              (step_on _ _ (joins _ e refl) (from_stopping _ refl)))
          l.system.server
  ]

  from_joining : (l : Life K) → l.main ≡ joining → l.stop_flag ≡ true → Ends l
  from_joining l e flag = elim (Bool-cases l.checked) [
    | inr unchecked ↦ from_unchecked l e flag unchecked
    | inl checked ↦ elim (Bool-cases l.reaper_runs) [
      | inr ended ↦ step_on l _ (joins l e ended) (from_stopping _ refl)
      | inl up ↦ step_on l _ (lists_nothing l up checked) (from_unchecked _ e flag refl)
    ]
  ]

  from_watching : (l : Life K) → l.main ≡ watching → Ends l
  from_watching l e =
      step_on l _ (interrupted l) (step_on _ _ (leaves _ e refl) (from_joining _ refl refl))

  -- main joins the reaper only once it has set the flag.
  Flagged : (l : Life K) → Type 0
  Flagged l = l.main ≡ joining → l.stop_flag ≡ true

  Lives-Flagged : (l m : Life K) → Lives ext cfg l m → Flagged l → Flagged m
  unfolding Flagged
  Lives-Flagged l _ (acts _ t move may same_pass) f = f
  Lives-Flagged l _ (looks _ up flag asleep) f = f
  Lives-Flagged l _ (begins _ t move up pass checked) f = f
  Lives-Flagged l _ (lists_nothing _ up checked) f = f
  Lives-Flagged l _ (interrupted _) f = f
  Lives-Flagged l _ (leaves _ e off) f = λ j. refl
  Lives-Flagged l _ (quits _ up flag unchecked asleep) f = f
  Lives-Flagged l _ (joins _ e ended) f = λ j. cc
  Lives-Flagged l _ (stops _ e) f = λ j. cc
  Lives-Flagged l _ (closes _ e) f = λ j. cc
  Lives-Flagged l _ (destroys _ e) f = λ j. cc

  Lived-Flagged : (l : Life K) → Lived ext cfg l → Flagged l
  unfolding Flagged
  Lived-Flagged _ (started boot db st clock key cert opened u b run e) = λ j. cc
  Lived-Flagged _ (lives l m before step) = Lives-Flagged l m step (Lived-Flagged l before)

  -- Wherever the process stands, there are steps that bring it to the end of main: the signal may
  -- come, the reaper can end its pass and its thread, and main can stop the API, close the tables
  -- and free the pool. So the shutdown never deadlocks.
  pub shutdown-Ends : (l : Life K) → Lived ext cfg l → Ends l
  unfolding Flagged
  shutdown-Ends l lived = from l.main refl
    where
      from : (m : Main) → l.main ≡ m → Ends l
      from watching e = from_watching l e
      from joining e = from_joining l e (Lived-Flagged l lived e)
      from stopping e = from_stopping l e
      from closing e = from_closing l e
      from destroying e = from_destroying l e
      from finished e = (l, so_far, e)
