-- ===== src/Session/Events.antt =====
-- service/session.go: the audit trail of credential events.
use re_casa_os_user_service.Prelude.{
  ℕ, suc, Bytes, Bool, ◌||◌, List, [], ◌∷◌, ltb, leb, ◌==◌, take, select_where, if◌then◌else◌,
  false,
}
use re_casa_os_user_service.Model.{Db, CredentialEvent, EventType}
use re_casa_os_user_service.Store.{
  M, Result, ok, err, World, pure, ◌>>=◌, ignore, attempt, exec, query, silent_unless_ready,
}

abbrev pub credential_event_cap : ℕ
credential_event_cap = 100

unfoldable pub new_event : World → ℕ → EventType → Bool → Bytes → Bytes → Db → CredentialEvent
new_event w actor_user_id event_type success source detail d = record {
  id = d.next_event_id;
  occurred_at = w.clock;
  installation_id = w.state.installation_id;
  actor_user_id = actor_user_id;
  event_type = event_type;
  success = success;
  source = source;
  detail = detail;
}

unfoldable pub add_event : (Db → CredentialEvent) → Db → Db
add_event e d = record d { events = e d ∷ d.events; next_event_id = suc d.next_event_id }

-- The event with the time and the installation id of the service that logs it.
unfoldable pub stamped : ℕ → EventType → Bool → Bytes → Bytes → M (Unit {0})
stamped actor_user_id event_type success source detail w =
    exec (add_event (new_event w actor_user_id event_type success source detail)) w

unfoldable pub log_credential_event : ℕ → EventType → Bool → Bytes → Bytes → M (Unit {0})
log_credential_event actor_user_id event_type success source detail =
    silent_unless_ready false tt (ignore (stamped actor_user_id event_type success source detail))

-- ORDER BY id DESC
unfoldable pub insert_by_id : CredentialEvent → List CredentialEvent → List CredentialEvent
insert_by_id e [] = e ∷ []
insert_by_id e (x ∷ xs) = if leb x.id e.id then e ∷ x ∷ xs else x ∷ insert_by_id e xs

unfoldable pub order_by_id : List CredentialEvent → List CredentialEvent
order_by_id [] = []
order_by_id (e ∷ es) = insert_by_id e (order_by_id es)

abbrev pub by_actor : ℕ → CredentialEvent → Bool
by_actor actor e = actor == 0 || e.actor_user_id == actor

abbrev pub clamp_limit : ℕ → ℕ
clamp_limit n = if n == 0 || ltb credential_event_cap n then credential_event_cap else n

unfoldable pub recent_events : ℕ → ℕ → Db → List CredentialEvent
recent_events actor n d =
    take (clamp_limit n) (order_by_id (select_where (by_actor actor) d.events))

abbrev or_nil : Result (List CredentialEvent) → List CredentialEvent
or_nil (ok es) = es
or_nil (err e) = []

unfoldable pub list_credential_events : ℕ → ℕ → M (List CredentialEvent)
list_credential_events actor_user_id limit =
    silent_unless_ready false []
      (do found ← attempt (query (recent_events actor_user_id limit)); pure (or_nil found))
