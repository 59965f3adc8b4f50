-- ===== src/Client/Main/Renewal.antt =====
-- The renewal thread, and the expiry of its session.
use wg_auth.Base.{
  ℕ, ◌+◌, ◌≤◌, ◌<◌, ◌≡◌, sym, subst, some_injective, inl, inr, true, false, List, [], ◌∷◌, Option,
  none, some, Bytes, Bool-cases, arith,
}
use wg_auth.Client.Api.{Settings, ClientConfig, client_api_renew}
use wg_auth.Client.Main.{is_due, renew_round, after_renewal}
use wg_auth.Client.{Http, Machine}
use wg_auth.Libc.{ℤ, pos, negsuc}

-- The session has not expired at this time.
abbrev pub InTime : ℕ → ℤ → Type 0
InTime now (pos expires_at) = now ≤ expires_at
InTime now (negsuc n) = ⊥

-- Each time is at most `gap` after the one before.
abbrev pub Rounds : ℕ → ℕ → List ℕ → Type 0
Rounds gap last [] = Unit {0}
Rounds gap last (now ∷ times) = (now ≤ last + gap) × Rounds gap now times

not_due : (e : ℤ) (now gap : ℕ) → gap < 900 → is_due e now ≡ false → InTime (now + gap) e
unfolding is_due
not_due (pos e) now gap g h = ground (arith, h)
not_due (negsuc n) now gap g h = cc

sooner : (e : ℤ) (now later : ℕ) → now ≤ later → InTime later e → InTime now e
sooner (pos e) now later h t = omega arith
sooner (negsuc n) now later h t = t

module _ {N K : Type 0} (http : Http N) (m : Machine K) (s : Settings) (token : Bytes) where
  -- The server renews: at each round that asks it, it answers an expiry at least `ttl` ahead.
  abbrev pub Renews : ℕ → List ℕ → N × ClientConfig → Type 0
  Renews ttl [] state = Unit {0}
  Renews ttl (now ∷ times) state =
      (is_due state.1.expires_at now ≡ true
        → (v : ℕ) × ((client_api_renew http s token (pos 0) state.0).1 ≡ some (pos v))
          × (now + ttl ≤ v))
      × Renews ttl times (renew_round http m s token now state)

  -- At each round the session has not expired.
  abbrev pub Alive : List ℕ → N × ClientConfig → Type 0
  Alive [] state = Unit {0}
  Alive (now ∷ times) state =
      InTime now state.1.expires_at × Alive times (renew_round http m s token now state)

  taken :
      (until v : ℕ) (config : ClientConfig) (r : N × Option ℤ)
      → r.1 ≡ some (pos v)
      → until ≤ v
      → InTime until (after_renewal http m s config r).1.expires_at
  taken until v config (n', none) e a = cc
  taken until v config (n', some new_exp) e a = subst (InTime until) (sym (some_injective e)) a

  renew_round_in_time :
      (gap ttl now : ℕ) (n : N) (config : ClientConfig)
      → gap < 900
      → gap ≤ ttl
      → (is_due config.expires_at now ≡ true
          → (v : ℕ) × ((client_api_renew http s token (pos 0) n).1 ≡ some (pos v))
            × (now + ttl ≤ v))
      → InTime (now + gap) (renew_round http m s token now (n, config)).1.expires_at
  unfolding renew_round
  renew_round_in_time gap ttl now n config g t renews =
      elim (Bool-cases (is_due config.expires_at now)) [
        | inr early ↦ rw (renew_round, early) (not_due config.expires_at now gap g early)
        | inl due ↦
            let (v, answered, ahead) = renews due in
            rw (renew_round, due)
              (taken (now + gap) v config (client_api_renew http s token (pos 0) n) answered
                (omega arith))
      ]

  -- Against a server that answers each renewal with an expiry at least `ttl` ahead, and with at
  -- most `gap` seconds, fewer than 900 and at most `ttl`, from the start and from each round to the
  -- next, a session that is in time up to the first round has not expired at any round.
  pub renew_thread-Alive :
      (gap ttl : ℕ) (times : List ℕ) (last : ℕ) (n : N) (config : ClientConfig)
      → gap < 900
      → gap ≤ ttl
      → Renews ttl times (n, config)
      → InTime (last + gap) config.expires_at
      → Rounds gap last times
      → Alive times (n, config)
  renew_thread-Alive gap ttl [] last n config g t renews live r = tt
  renew_thread-Alive gap ttl (now ∷ times) last n config g t renews live r = (
    sooner config.expires_at now (last + gap) r.0 live,
    renew_thread-Alive gap ttl times now _ _ g t renews.1
        (renew_round_in_time gap ttl now n config g t renews.0) r.1,
  )
