-- ===== src/Session/Lockout/Budget.antt =====
-- The failure budgets of service/session.go: when a key is locked and for how long.
use re_casa_os_user_service.Prelude.{
  ℕ, Bytes, ◌≡◌, Bool, none, ◌⊎◌, some, ◌<◌, false, arith, true, ◌-◌, ◌++◌, find_where, ◌≤◌,
  update_where, is_empty, exists_where, codes, ◌∷◌, ◌+◌, [], ◌≢◌, suc, List, bytes_eq→eq, bytes_eq,
  ap, ◌∙◌, bytes_eq_iff, subst, sym, if◌then◌else◌, ltb, leb, ◌&&◌,
}
use re_casa_os_user_service.Store.{◌>>=◌, refuse_if, World, ok}
use re_casa_os_user_service.Session.Lockout.{
  lock_state, add_failure, record_login_failure, failure_result, count_failure, restart_window,
  find_attempt, is_locked, check_login_lockout, login_attempt_key, save_attempt,
  login_lockout_window, has_key, login_failure_limit, login_lockout_length,
}
use re_casa_os_user_service.Model.{LoginAttempt, Db}

-- A counted failure and the check agree at the same time on whether the key is locked and on the
-- wait, when the row starts unlocked.
lock_state-add_failure :
    (now : ℕ) (a : LoginAttempt)
    → a.locked_until ≡ none ⊎ (is_locked (lock_state now a) ≡ false)
    → lock_state now (add_failure now (restart_window now a))
      ≡ failure_result (add_failure now (restart_window now a))
unfolding lock_state add_failure failure_result restart_window
lock_state-add_failure now a h = ground arith

-- A locked key: the attempt is not counted, the tables stay, and the wait is what is left of the
-- lock, so failures never extend it.
pub locked_stays :
    (key : Bytes) (now until : ℕ) (w : World) (a : LoginAttempt) (r : Bool × ℕ)
    → find_attempt key w.db ≡ some a
    → a.locked_until ≡ some until
    → now < until
    → (record_login_failure key now w).0 ≡ ok r
    → (r ≡ (true, until - now)) × ((record_login_failure key now w).1.db ≡ w.db)
unfolding ◌>>=◌ record_login_failure count_failure lock_state refuse_if
locked_stays key now until w a r f l lt h = ground (arith, f)

find-save :
    (key : Bytes) (a : LoginAttempt) (xs : List LoginAttempt)
    → bytes_eq a.key key ≡ true
    → exists_where (has_key key) xs ≡ true
    → find_where (has_key key) (update_where (has_key key) (λ _. a) xs) ≡ some a
unfolding find_where update_where exists_where
find-save key a [] e h = cc
find-save key a (x ∷ xs) e h = ground (arith, e, find-save key a xs)

found_exists :
    (key : Bytes) (a : LoginAttempt) (xs : List LoginAttempt)
    → find_where (has_key key) xs ≡ some a
    → (bytes_eq a.key key ≡ true) × (exists_where (has_key key) xs ≡ true)
unfolding find_where exists_where
found_exists key a [] h = cc
found_exists key a (x ∷ xs) h = ground (arith, found_exists key a xs)

pub find_attempt-save :
    (key : Bytes) (a b : LoginAttempt) (d : Db)
    → find_attempt key d ≡ some a
    → b.key ≡ a.key
    → find_attempt key (save_attempt b d) ≡ some b
unfolding find_attempt save_attempt
find_attempt-save key a b d f e =
    let (k, x) = found_exists key a d.attempts f in
    let same : b.key ≡ key = e ∙ bytes_eq→eq a.key key k in
    let again : bytes_eq b.key key ≡ true = (bytes_eq_iff b.key key).1 same in
    let there : exists_where (has_key b.key) d.attempts ≡ true =
      subst (λ (t : Bytes). exists_where (has_key t) d.attempts ≡ true) (sym same) x in
    ground (
      arith,
      there,
      subst
          (λ (t : Bytes).
            find_where (has_key key) (update_where (has_key t) (λ _. b) d.attempts) ≡ some b)
          (sym same) (find-save key b d.attempts again x),
    )

counted_key : (now : ℕ) (a : LoginAttempt) → (add_failure now (restart_window now a)).key ≡ a.key
unfolding add_failure restart_window
counted_key now a = ground arith

module _ (w : World) (never : (n : ℕ) → w.fails n ≡ false) (ready : w.ready ≡ true) where
  -- An unlocked key, when no statement fails: one more failure is counted in the row (in a new
  -- window if the last is over), the reply says whether that locked the key, and a check at the
  -- same time gives the same reply.
  pub failure_counted :
      (key : Bytes) (now : ℕ) (a : LoginAttempt)
      → is_empty key ≡ false
      → find_attempt key w.db ≡ some a
      → is_locked (lock_state now a) ≡ false
      → let counted = add_failure now (restart_window now a) in
        let r = record_login_failure key now w in
        (r.0 ≡ ok (failure_result counted))
        × (find_attempt key r.1.db ≡ some counted)
        × ((check_login_lockout key now r.1).0 ≡ ok (failure_result counted))
  unfolding ◌>>=◌ record_login_failure count_failure check_login_lockout refuse_if
  failure_counted key now a e f l = ground (
    arith,
    e,
    f,
    l,
    never w.calls,
    never (suc w.calls),
    never (suc (suc w.calls)),
    never (suc (suc (suc w.calls))),
    never (suc (suc (suc (suc w.calls)))),
    lock_state-add_failure now a,
    counted_key now a,
    find_attempt-save key a (add_failure now (restart_window now a)) w.db,
  )

-- The row after a failure at `now`, seen at a time `t`: below the limit no lock runs, and from the
-- limit on the lock runs for the whole lockout length.
abbrev pub locked_at : ℕ → ℕ → ℕ → Bool × ℕ
locked_at failures now t =
    if leb login_failure_limit (failures + 1) && ltb t (now + login_lockout_length)
    then (true, now + login_lockout_length - t)
    else (false, 0)

counted_lock :
    (now t : ℕ) (a : LoginAttempt)
    → 0 < a.window_started_at
    → now ≤ a.window_started_at + login_lockout_window
    → is_locked (lock_state now a) ≡ false
    → now ≤ t
    → lock_state t (add_failure now (restart_window now a)) ≡ locked_at a.failures now t
unfolding lock_state add_failure restart_window
counted_lock now t a p q l le = ground arith

counted_reply :
    (now : ℕ) (a : LoginAttempt)
    → 0 < a.window_started_at
    → now ≤ a.window_started_at + login_lockout_window
    → failure_result (add_failure now (restart_window now a)) ≡ (
        if ltb (a.failures + 1) login_failure_limit
        then (false, 0)
        else (true, login_lockout_length))
unfolding add_failure failure_result restart_window
counted_reply now a p q = ground arith

check_row :
    (key : Bytes) (t : ℕ) (w : World) (a : LoginAttempt)
    → w.ready ≡ true
    → is_empty key ≡ false
    → w.fails w.calls ≡ false
    → find_attempt key w.db ≡ some a
    → (check_login_lockout key t w).0 ≡ ok (lock_state t a)
unfolding ◌>>=◌ check_login_lockout
check_row key t w a r e f found = ground (arith, r, e, f, found)

-- One more failure of an unlocked key within its window, when no statement fails. The reply is a lock
-- of the whole lockout length exactly if this failure reaches the limit, and a check at any later
-- time `t` finds the key locked exactly if the limit was reached and that length is not over.
pub locks_at_limit :
    (key : Bytes) (now t : ℕ) (w w' : World) (a : LoginAttempt)
    → ((n : ℕ) → w.fails n ≡ false)
    → w.ready ≡ true
    → is_empty key ≡ false
    → find_attempt key w.db ≡ some a
    → 0 < a.window_started_at
    → now ≤ a.window_started_at + login_lockout_window
    → is_locked (lock_state now a) ≡ false
    → now ≤ t
    → w'.db ≡ (record_login_failure key now w).1.db
    → w'.ready ≡ true
    → w'.fails w'.calls ≡ false
    → ((record_login_failure key now w).0
        ≡ ok (
            if ltb (a.failures + 1) login_failure_limit
            then (false, 0)
            else (true, login_lockout_length)))
      × ((check_login_lockout key t w').0 ≡ ok (locked_at a.failures now t))
locks_at_limit key now t w w' a never ready e f p q l le same ready' quiet =
    let (reply, stored, again) = failure_counted w never ready key now a e f l in
    (
      reply ∙ ap ok (counted_reply now a p q),
      check_row key t w' (add_failure now (restart_window now a)) ready' e quiet
            (ap (find_attempt key) same ∙ stored)
          ∙ ap ok (counted_lock now t a p q l le),
    )

append_injective : (ns v v' : Bytes) → ns ++ v ≡ ns ++ v' → v ≡ v'
append_injective [] v v' h = h
append_injective (b ∷ ns) v v' h = append_injective ns v v' (cc h)

abbrev first_byte : Bytes → ℕ
first_byte [] = 0
first_byte (b ∷ bs) = b

-- The keys of distinct names in one namespace are distinct.
pub key_injective : (ns v v' : Bytes) → v ≢ v' → login_attempt_key ns v ≢ login_attempt_key ns v'
unfolding login_attempt_key
key_injective ns v v' apart h =
    apart (cc (append_injective ns (codes ":" ++ v) (codes ":" ++ v') h))

-- No key of the login namespace is a key of the refresh namespace.
pub namespaces_apart :
    (v u : Bytes) → login_attempt_key (codes "login") v ≢ login_attempt_key (codes "refresh") u
unfolding login_attempt_key
namespaces_apart v u h = omega (arith, ap first_byte h)
