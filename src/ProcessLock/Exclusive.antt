-- ===== src/ProcessLock/Exclusive.antt =====
-- pkg/processlock/lock.go: no two processes have the lock.
use re_casa_os_user_service.Prelude.{
  ℕ, length, delete_where, some, ◌≤◌, ◌==◌, ◌∷◌, arith, Option, [], if◌then◌else◌, ◌≡◌, none, true,
  subst, false, ap,
}
use re_casa_os_user_service.ProcessLock.{
  Locks, LockStep, Reachable, acquire, no_locks, acquire_checked, close_lock, next, acquired, flock,
  check_lock_file, refused, closed, start,
}
use re_casa_os_user_service.Files.{Answer, FileError, failed, done, value}

-- The lock is free and nobody has it, or the one that the system knows has it.
pub data IsConsistent : Locks → Type 0 where
  nobody : IsConsistent no_locks
  somebody : {fd : ℕ} → IsConsistent (record { holder = some fd; held = fd ∷ [] })

acquired-IsConsistent :
    (r : Answer (Unit {0})) (fd fd' : ℕ) (l : Locks) (h : Option ℕ)
    → IsConsistent l
    → acquire_checked r fd l.holder ≡ (done fd', h)
    → IsConsistent (record { holder = h; held = fd' ∷ l.held })
unfolding acquire_checked flock
acquired-IsConsistent (failed e) fd fd' l h c z = absurd (ground (arith, z))
acquired-IsConsistent (done u) fd fd' l h nobody z =
    subst
      (λ (r : Answer ℕ × Option ℕ).
        IsConsistent (record { holder = r.1; held = value fd r.0 ∷ [] }))
      z somebody
acquired-IsConsistent (done u) fd fd' l h somebody z = absurd (ground (arith, z))

refused-IsConsistent :
    (r : Answer (Unit {0})) (fd : ℕ) (e : FileError) (l : Locks) (h : Option ℕ)
    → IsConsistent l
    → acquire_checked r fd l.holder ≡ (failed e, h)
    → IsConsistent (record l { holder = h })
unfolding acquire_checked flock
refused-IsConsistent (failed x) fd e l h c z =
    subst (λ (o : Option ℕ). IsConsistent (record l { holder = o }))
      (ap (λ (r : Answer ℕ × Option ℕ). r.1) z) c
refused-IsConsistent (done u) fd e l h nobody z = absurd (ground (arith, z))
refused-IsConsistent (done u) fd e l h somebody z =
    subst (λ (o : Option ℕ). IsConsistent (record l { holder = o }))
      (ap (λ (r : Answer ℕ × Option ℕ). r.1) z) somebody

closed-IsConsistent :
    (fd : ℕ) (l : Locks)
    → IsConsistent l
    → IsConsistent
        (record { holder = close_lock fd l.holder; held = delete_where (λ x. x == fd) l.held })
unfolding close_lock delete_where
closed-IsConsistent fd l nobody = nobody
closed-IsConsistent fd l (somebody {fd = h}) =
    elim (h == fd)
      as (λ b.
        IsConsistent
          (record { holder = if b then none else some h; held = if b then [] else h ∷ [] })) [
            | true ↦ nobody
            | false ↦ somebody
          ]

step-IsConsistent : {l l' : Locks} → LockStep l l' → IsConsistent l → IsConsistent l'
unfolding acquire
step-IsConsistent (acquired {l = l} {h = h} {fd' = fd'} owner f fd z) c =
    acquired-IsConsistent (check_lock_file owner f) fd fd' l h c z
step-IsConsistent (refused {l = l} {h = h} {e = e} owner f fd z) c =
    refused-IsConsistent (check_lock_file owner f) fd e l h c z
step-IsConsistent (closed {l = l} fd) c = closed-IsConsistent fd l c

reachable-IsConsistent : {l : Locks} → Reachable l → IsConsistent l
reachable-IsConsistent start = nobody
reachable-IsConsistent (next r s) = step-IsConsistent s (reachable-IsConsistent r)

consistent_alone : {l : Locks} → IsConsistent l → length l.held ≤ 1
consistent_alone nobody = omega arith
consistent_alone somebody = omega arith

-- In every order of calls at most one process has the lock.
pub lock_exclusive : (l : Locks) → Reachable l → length l.held ≤ 1
lock_exclusive l r = consistent_alone (reachable-IsConsistent r)
