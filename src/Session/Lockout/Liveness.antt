-- ===== src/Session/Lockout/Liveness.antt =====
-- Enough failures lock a key in service/session.go.
use re_casa_os_user_service.Prelude.{
  ℕ, Bytes, Bool, true, false, none, some, ◌≡◌, arith, List, ◌<◌, ◌∷◌, ◌≤◌, is_empty, [], ◌+◌, ◌∙◌,
  ap, subst, find_where, exists_where, refl, bytes_eq_refl, suc, ◌-◌,
}
use re_casa_os_user_service.Store.{◌>>=◌, World, refuse_if, ok}
use re_casa_os_user_service.Session.Lockout.{
  record_login_failure, lock_state, restart_window, is_locked, count_failure, find_attempt,
  login_lockout_window, add_failure, new_attempt, add_attempt, has_key, check_login_lockout,
  login_lockout_length,
}
use re_casa_os_user_service.Model.{LoginAttempt, Db}
use re_casa_os_user_service.Session.Lockout.Budget.{failure_counted, find_attempt-save}

-- Failures of one key at the given times.
unfoldable pub fail_at : Bytes → List ℕ → World → World
fail_at key [] w = w
fail_at key (t ∷ ts) w = fail_at key ts (record_login_failure key t w).1

-- The service runs, no statement fails, and the row of the key is `a`.
abbrev IsCounting : Bytes → LoginAttempt → World → Type 0
IsCounting key a w =
    (w.ready ≡ true) × ((n : ℕ) → w.fails n ≡ false) × (find_attempt key w.db ≡ some a)

keeps_service :
    (key : Bytes) (now : ℕ) (w : World)
    → ((record_login_failure key now w).1.ready ≡ w.ready)
      × ((record_login_failure key now w).1.fails ≡ w.fails)
unfolding ◌>>=◌ record_login_failure count_failure
keeps_service key now w = (ground arith, ground arith)

same_window :
    (now : ℕ) (a : LoginAttempt)
    → 0 < a.window_started_at
    → now ≤ a.window_started_at + login_lockout_window
    → restart_window now a ≡ a
unfolding restart_window
same_window now a p q = ground arith

open_row :
    (now : ℕ) (a : LoginAttempt) → a.locked_until ≡ none → is_locked (lock_state now a) ≡ false
unfolding lock_state
open_row now a e = ground (arith, e)

count_step :
    (key : Bytes) (now : ℕ) (a : LoginAttempt) (w : World)
    → is_empty key ≡ false
    → a.locked_until ≡ none
    → 0 < a.window_started_at
    → now ≤ a.window_started_at + login_lockout_window
    → IsCounting key a w
    → IsCounting key (add_failure now a) (record_login_failure key now w).1
count_step key now a w e l p q (r, f, found) =
    let (same_ready, same_fails) = keeps_service key now w in
    let (x, counted, y) = failure_counted w f r key now a e found (open_row now a l) in
    (
      same_ready ∙ r,
      λ n. ap (λ (g : ℕ → Bool). g n) same_fails ∙ f n,
      subst (λ b. find_attempt key (record_login_failure key now w).1.db ≡ some (add_failure now b))
          (same_window now a p q) counted,
    )

none_exists :
    (key : Bytes) (xs : List LoginAttempt)
    → find_where (has_key key) xs ≡ none
    → exists_where (has_key key) xs ≡ false
unfolding find_where exists_where
none_exists key [] h = refl
none_exists key (x ∷ xs) h = ground (arith, h, none_exists key xs)

added_found :
    (key : Bytes) (now : ℕ) (d d' : Db)
    → find_attempt key d ≡ none
    → d' ≡ record d { attempts = new_attempt key now ∷ d.attempts }
    → (add_attempt (new_attempt key now) d ≡ some d')
      × (find_attempt key d' ≡ some (new_attempt key now))
unfolding find_attempt add_attempt find_where
added_found key now d d' h e =
    (ground (arith, e, none_exists key d.attempts h), ground (arith, e, bytes_eq_refl key))

refl_key : (key : Bytes) (now : ℕ) → (add_failure now (new_attempt key now)).key ≡ key
unfolding add_failure
refl_key key now = refl

first_step :
    (key : Bytes) (now : ℕ) (w : World)
    → is_empty key ≡ false
    → 0 < now
    → w.ready ≡ true
    → ((n : ℕ) → w.fails n ≡ false)
    → find_attempt key w.db ≡ none
    → IsCounting key (add_failure now (new_attempt key now)) (record_login_failure key now w).1
unfolding ◌>>=◌ record_login_failure count_failure refuse_if
first_step key now w e pos r f found =
    let d' : Db = record w.db { attempts = new_attempt key now ∷ w.db.attempts } in
    let a = new_attempt key now in
    let (added, there) = added_found key now w.db d' found refl in
    let saved = find_attempt-save key a (add_failure now a) d' there (refl_key key now) in
    (
      ground (arith, r),
      λ n. ground (arith, f n),
      ground (
        arith,
        e,
        r,
        found,
        added,
        saved,
        f w.calls,
        f (suc w.calls),
        f (suc (suc w.calls)),
        f (suc (suc (suc w.calls))),
        f (suc (suc (suc (suc w.calls)))),
        open_row now a refl,
        same_window now a pos (omega arith),
      ),
    )

locked_after :
    (key : Bytes) (now at until : ℕ) (a : LoginAttempt) (w : World)
    → is_empty key ≡ false
    → IsCounting key a w
    → a.locked_until ≡ some until
    → at < until
    → (check_login_lockout key at w).0 ≡ ok (true, until - at)
unfolding ◌>>=◌ check_login_lockout lock_state
locked_after key now at until a w e (r, f, found) l lt =
    ground (arith, e, r, found, l, lt, f w.calls)

-- The fifth failure of a fresh key within one window, when no statement fails, locks it: whatever the
-- times of the failures in that window, a check before the lockout length after the last one is over
-- finds the key locked for the rest of it.
pub five_failures_lock :
    (key : Bytes) (t1 t2 t3 t4 t5 at : ℕ) (w : World)
    → is_empty key ≡ false
    → 0 < t1
    → t2 ≤ t1 + login_lockout_window
    → t3 ≤ t1 + login_lockout_window
    → t4 ≤ t1 + login_lockout_window
    → t5 ≤ t1 + login_lockout_window
    → w.ready ≡ true
    → ((n : ℕ) → w.fails n ≡ false)
    → find_attempt key w.db ≡ none
    → at < t5 + login_lockout_length
    → (check_login_lockout key at (fail_at key (t1 ∷ t2 ∷ t3 ∷ t4 ∷ t5 ∷ []) w)).0
      ≡ ok (true, (t5 + login_lockout_length) - at)
unfolding fail_at add_failure
five_failures_lock key t1 t2 t3 t4 t5 at w e pos p2 p3 p4 p5 r f fresh lt =
    let s1 = first_step key t1 w e pos r f fresh in
    let s2 = count_step key t2 _ _ e refl pos p2 s1 in
    let s3 = count_step key t3 _ _ e refl pos p3 s2 in
    let s4 = count_step key t4 _ _ e refl pos p4 s3 in
    let s5 = count_step key t5 _ _ e refl pos p5 s4 in
    locked_after key t5 at (t5 + login_lockout_length) _ _ e s5 refl lt
