-- ===== src/Handlers/Login/Locked.antt =====
-- PostUserLogin of route/v1/user.go while the name is locked.
use re_casa_os_user_service.Prelude.{
  ℕ, Bytes, Bool, true, false, some, ◌≡◌, arith, is_empty, ◌<◌, ◌-◌, subst, ◌&&◌, ◌≢◌, not,
  if◌then◌else◌, ◌||◌, refl, Option, sym,
}
use re_casa_os_user_service.Store.{◌>>=◌, World, ok, Result, pure, M}
use re_casa_os_user_service.Password.{Kdf}
use re_casa_os_user_service.Model.{Db, LoginAttempt, minute}
use re_casa_os_user_service.Tokens.{Crypto}
use re_casa_os_user_service.Handlers.Login.{
  login_with, post_user_login, LoginRequest, login_body, unless_locked, login_key,
  login_rate_limited, login_invalid,
}
use re_casa_os_user_service.Session.Lockout.{
  check_login_lockout, lock_state, find_attempt, login_attempt_key,
}
use re_casa_os_user_service.Handlers.{Reply, success}
use re_casa_os_user_service.Session.Issue.{LoginMoment}

limited_status : (d : ℕ) → (login_rate_limited d).status ≢ success
unfolding login_rate_limited
limited_status d z = ground (arith, z)

-- What a login for a locked name leads to: a reply that is no success, and no change.
abbrev pub IsRefused : Db → ℕ → Bool → Result Reply × World → Type 0
IsRefused d wait well_formed r =
    (rep : Reply) × (r.0 ≡ ok rep)
    × (rep.status ≢ success)
    × (r.1.db ≡ d)
    × (well_formed ≡ true → rep ≡ login_rate_limited wait)

-- Well-formed: the limiter lets it through, nothing trails the body, and neither part is empty.
abbrev pub well_formed : LoginRequest → Bytes → Bytes → Bool
well_formed request name secret =
    request.allowed && not (request.trailing || is_empty name || is_empty secret)

module _ (k : Kdf) (others : LoginMoment → Db → Db) (c : Crypto) (ties : Bytes → Bytes → Bool) where
  with_locked :
      (name secret : Bytes) (w : World) (a : LoginAttempt) (until : ℕ)
      → w.ready ≡ true
      → w.fails w.calls ≡ false
      → find_attempt (login_key name) w.db ≡ some a
      → a.locked_until ≡ some until
      → w.clock < until
      → ((login_with k others c ties name secret w).0 ≡ ok (login_rate_limited (until - w.clock)))
        × ((login_with k others c ties name secret w).1.db ≡ w.db)
  unfolding ◌>>=◌ login_with unless_locked check_login_lockout lock_state login_attempt_key
  with_locked name secret w a until r f found l lt =
      (ground (arith, r, f, found, l, lt), ground (arith, r, f, found, l, lt))

  IsRefused-reply :
      (rep : Reply) (w : World) (wait : ℕ)
      → rep.status ≢ success
      → IsRefused w.db wait false (pure rep w)
  unfolding pure
  IsRefused-reply rep w wait n = (rep, refl, n, refl, λ e. absurd (ground (arith, e)))

  body-IsRefused :
      (name secret : Bytes) (w : World) (a : LoginAttempt) (until : ℕ) (odd : Bool)
      → w.ready ≡ true
      → w.fails w.calls ≡ false
      → find_attempt (login_key name) w.db ≡ some a
      → a.locked_until ≡ some until
      → w.clock < until
      → IsRefused w.db
          (until - w.clock)
          (not odd)
          ((if odd then pure login_invalid else login_with k others c ties name secret) w)
  body-IsRefused name secret w a until true r f found l lt =
      IsRefused-reply login_invalid w (until - w.clock) (λ z. ground (arith, z))
  body-IsRefused name secret w a until false r f found l lt =
      let (p, q) = with_locked name secret w a until r f found l lt in
      (login_rate_limited (until - w.clock), p, limited_status (until - w.clock), q, λ e. refl)

  body_locked :
      (trailing : Bool) (decoded : Option (Bytes × Bytes)) (name secret : Bytes) (w : World)
      (a : LoginAttempt) (until : ℕ)
      → decoded ≡ some (name, secret)
      → w.ready ≡ true
      → w.fails w.calls ≡ false
      → find_attempt (login_key name) w.db ≡ some a
      → a.locked_until ≡ some until
      → w.clock < until
      → IsRefused w.db
          (until - w.clock)
          (not (trailing || is_empty name || is_empty secret))
          (login_body k others c ties trailing decoded w)
  unfolding login_body
  body_locked trailing decoded name secret w a until e r f found l lt =
      subst
        (λ o.
          IsRefused w.db (until - w.clock) (not (trailing || is_empty name || is_empty secret))
            (login_body k others c ties trailing o w))
        (sym e)
        (body-IsRefused name secret w a until (trailing || is_empty name || is_empty secret) r f
          found l lt)

  limited-IsRefused :
      (allowed odd : Bool) (rest : M Reply) (w : World) (wait : ℕ)
      → IsRefused w.db wait (not odd) (rest w)
      → IsRefused w.db wait
          (allowed && not odd)
          ((if not allowed then pure (login_rate_limited minute) else rest) w)
  limited-IsRefused true odd rest w wait r = r
  limited-IsRefused false odd rest w wait r =
      IsRefused-reply (login_rate_limited minute) w wait (limited_status minute)

-- A login for a locked name, well-formed or not, is answered without success and changes no table,
-- whatever the password, if the check can read the row; a well-formed one is answered with 429 and
-- what is left of the lock.
pub login_locked :
    (k : Kdf) (others : LoginMoment → Db → Db) (c : Crypto) (ties : Bytes → Bytes → Bool)
    (request : LoginRequest) (name secret : Bytes) (w : World) (a : LoginAttempt) (until : ℕ)
    → request.decoded ≡ some (name, secret)
    → w.ready ≡ true
    → w.fails w.calls ≡ false
    → find_attempt (login_key name) w.db ≡ some a
    → a.locked_until ≡ some until
    → w.clock < until
    → (rep : Reply) × ((post_user_login k others c ties request w).0 ≡ ok rep)
      × (rep.status ≢ success)
      × ((post_user_login k others c ties request w).1.db ≡ w.db)
      × (well_formed request name secret ≡ true → rep ≡ login_rate_limited (until - w.clock))
unfolding post_user_login
login_locked k others c ties request name secret w a until e r f found l lt =
    limited-IsRefused k others c ties request.allowed
      (request.trailing || is_empty name || is_empty secret)
      (login_body k others c ties request.trailing request.decoded) w (until - w.clock)
      (body_locked k others c ties request.trailing request.decoded name secret w a until e r f
        found l lt)
