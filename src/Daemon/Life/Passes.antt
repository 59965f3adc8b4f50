-- ===== src/Daemon/Life/Passes.antt =====
-- The passes that the reaper begins once main has asked it to end.
use wg_auth.Base.{ℕ, ◌+◌, ◌≤◌, ◌≡◌, refl, Bool, true, false, arith}
use wg_auth.Config.{ServerConfig}
use wg_auth.Daemon.Life.{
  Life, Lives, acts, looks, begins, lists_nothing, interrupted, leaves, quits, joins, stops, closes,
  destroys, LivesOn, so_far, and_then,
}
use wg_auth.External.{External}

module _ {K : Type 0} (ext : External K) (cfg : ServerConfig) where
  abbrev begun : {l m : Life K} → Lives ext cfg l m → ℕ
  begun (acts l t move may same_pass) = 0
  begun (looks l up flag asleep) = 0
  begun (begins l t move up pass checked) = 1
  begun (lists_nothing l up checked) = 0
  begun (interrupted l) = 0
  begun (leaves l e off) = 0
  begun (quits l up flag unchecked asleep) = 0
  begun (joins l e ended) = 0
  begun (stops l e) = 0
  begun (closes l e) = 0
  begun (destroys l e) = 0

  -- How many passes the reaper begins on the way.
  abbrev pub passes : {l m : Life K} → LivesOn ext cfg l m → ℕ
  passes so_far = 0
  passes (and_then m n on step) = passes on + begun step

  abbrev due : Bool → ℕ
  due true = 1
  due false = 0

  due_le : (b : Bool) → due b ≤ 1
  due_le true = omega arith
  due_le false = omega arith

  begun-due :
      (l m : Life K) (step : Lives ext cfg l m)
      → l.stop_flag ≡ true
      → (begun step + due m.checked ≤ due l.checked) × (m.stop_flag ≡ true)
  begun-due l _ (acts _ t move may same_pass) flag = (omega arith, flag)
  begun-due l _ (looks _ up off asleep) flag = cc
  begun-due l _ (begins _ t move up pass checked) flag = (rw checked (omega arith), flag)
  begun-due l _ (lists_nothing _ up checked) flag = (omega arith, flag)
  begun-due l _ (interrupted _) flag = (omega arith, flag)
  begun-due l _ (leaves _ e off) flag = (omega arith, refl)
  begun-due l _ (quits _ up set unchecked asleep) flag = (omega arith, flag)
  begun-due l _ (joins _ e ended) flag = (omega arith, flag)
  begun-due l _ (stops _ e) flag = (omega arith, flag)
  begun-due l _ (closes _ e) flag = (omega arith, flag)
  begun-due l _ (destroys _ e) flag = (omega arith, flag)

  passes-due :
      (l m : Life K) (on : LivesOn ext cfg l m)
      → l.stop_flag ≡ true
      → (passes on + due m.checked ≤ due l.checked) × (m.stop_flag ≡ true)
  passes-due l _ so_far flag = (omega arith, flag)
  passes-due l _ (and_then m n on step) flag =
      let (before, set) = passes-due l m on flag in
      let (here, kept) = begun-due m n step set in (omega (arith, before, here), kept)

  -- Once stop_flag is set, the reaper begins at most one more pass, whatever else happens: the one
  -- for which it had looked at the flag before.
  pub one_more_pass : (l m : Life K) (on : LivesOn ext cfg l m) → l.stop_flag ≡ true → passes on ≤ 1
  one_more_pass l m on flag = omega (arith, (passes-due l m on flag).0, due_le l.checked)
