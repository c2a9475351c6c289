-- ===== src/Session/Runs.antt =====
-- Histories: what requests do to the sessions of service/session.go between two moments.
use re_casa_os_user_service.Prelude.{[], ℕ, Bytes, List, All, ◌∷◌, ◌≢◌, Bool, ◌+◌}
use re_casa_os_user_service.Store.{World}
use re_casa_os_user_service.Model.{Db}
use re_casa_os_user_service.Session.Refresh.{
  create_refresh_session, rotate_refresh_session, revoke_refresh_session, revoke_all_user_sessions,
  logout_session, logout_all_sessions, Moment,
}
use re_casa_os_user_service.Session.Prune.{prune_auth_state}
use re_casa_os_user_service.Session.Refresh.Reuse.{Respects}

-- One call of the service by any client, or time that passes. Arguments are the clients' to choose.
pub data Op : Type 0 where
  creates : ℕ → Bytes → ℕ → ℕ → Bytes → Op
  rotates : (Moment → Db → Db) → Bytes → Bytes → Bytes → ℕ → ℕ → ℕ → Op
  revokes : Bytes → Bytes → Op
  revokes_user : ℕ → Bytes → Op
  logs_out : ℕ → Bytes → ℕ → Op
  logs_out_all : ℕ → Op
  prunes : (Bytes → Bytes → Bool) → ℕ → Op
  passes : ℕ → Op

unfoldable pub step : Op → World → World
step (creates i sha issued expires sid) w = (create_refresh_session i sha issued expires sid w).1
step (rotates o t rid rsha issued expires now) w =
    (rotate_refresh_session o t rid rsha issued expires now w).1
step (revokes sid reason) w = (revoke_refresh_session sid reason w).1
step (revokes_user i reason) w = (revoke_all_user_sessions i reason w).1
step (logs_out i sid e) w = (logout_session i sid e w).1
step (logs_out_all i) w = (logout_all_sessions i w).1
step (prunes ties now) w = (prune_auth_state ties now w).1
step (passes n) w = record w { clock = w.clock + n }

unfoldable pub run : List Op → World → World
run [] w = w
run (o ∷ os) w = run os (step o w)

-- The call, with what others do at its points, stores no new session under the digest `t`.
abbrev pub Avoids : Bytes → Op → Type 0
Avoids t (creates i sha issued expires sid) = sha ≢ t
Avoids t (rotates o p rid rsha issued expires now) = (rsha ≢ t) × Respects t o
Avoids t _ = Unit

-- A property that every call of a kind keeps holds after every history of such calls.
pub run-keeps :
    (P : Db → Type 0) (Q : Op → Type 0)
    → ((o : Op) (w : World) → Q o → P w.db → P (step o w).db)
    → (os : List Op) (w : World) → All Q os
    → P w.db
    → P (run os w).db
unfolding run
run-keeps P Q k [] w q h = h
run-keeps P Q k (o ∷ os) w q h = run-keeps P Q k os (step o w) q.1 (k o w q.0 h)
