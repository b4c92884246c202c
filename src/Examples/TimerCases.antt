-- ===== src/Examples/TimerCases.antt =====
-- The theorems on the timer, on the services that never fail.
use code_storm.Engine.Handling.Duplicate.{pending_row}
use code_storm.Prelude.{
  subst, ap, unwrap_or, [], ◌∷◌, none, some, ◌≡◌, ◌⊎◌, refl, inl, inr, Bool-cases, ◌==◌, false,
  true, arith, List,
}
use code_storm.Prelude.Int.{ℤ, pos}
use code_storm.Exec.{◌>>=◌, pure}
use code_storm.Exec.Wp.{Wp}
use code_storm.Exec.Ensures.{Ensures}
use code_storm.Redis.View.{Keyspace, in_range, deadlines, incident_escalations, Entry}
use code_storm.Postgres.{IncidentRow, fits}
use code_storm.Model.Source.{merchant, gateway, bank}
use code_storm.Model.Incident.{not_received}
use code_storm.Store.RedisStore.{pop_expired_deadlines, pop_expired_escalations}
use code_storm.Store.RedisStore.Deadlines.{pop_expired_deadlines-Popped}
use code_storm.Store.RedisStore.Escalations.{pop_expired_escalations-Popped}
use code_storm.Store.PostgresStore.{escalate_incident}
use code_storm.Store.PostgresStore.Rows.{escalate_incident-once}
use code_storm.Engine.Parts.{State}
use code_storm.Runs.{entry, timer_tick, step, start, handled, Reaches-IsWell}
use code_storm.Error.{ok}
use code_storm.Stream.Replies.{AreAcknowledged, handle_reply-AreAcknowledged}
use code_storm.Stream.{handle_reply, handle_entry}
use code_storm.Stream.Acknowledged.{FitsPayload, handle_entry-unreadable}
use code_storm.Engine.Seen.{Seen, see}
use code_storm.Engine.Handling.Fits.{IsWell, AllFit}
use code_storm.Engine.Timers.{handle_timeout, process_expired_escalations}
use code_storm.Engine.Timers.Timeout.{TimedOut, handle_timeout-TimedOut}
use code_storm.Engine.Timers.Escalation.{process_expired_escalations-Escalated, Escalated}
use code_storm.Examples.RedisServer.{redis, redis_laws, Server, zadd_int, zadd_text}
use code_storm.Examples.Database.{Rows, postgres, postgres_laws}
use code_storm.Examples.TextCodec.{message_text, read_message_text, codec, codec_laws}
use code_storm.Examples.Demo.{
  idle, from_merchant, from_gateway, demo, demo_laws, config, waiting, empty_keyspace, window_with,
  two_events, empty_server,
}
use code_storm.Redis.View
use code_storm.Store.RedisStore.Deadlines
use code_storm.Store.RedisStore.Escalations
use code_storm.Engine.Windows

pub from_some : {A : Type 0} (P : A → Type 0) (a b : A) → some a ≡ some b → P a → P b
from_some P a b h p = subst P (ap (λ o. unwrap_or o a) h) p

pub two_events-AllFit : AllFit demo_laws config two_events
two_events-AllFit merchant e h =
    from_some (λ x. fits (pending_row demo_laws config x) ≡ true) from_merchant e h refl
two_events-AllFit gateway e h =
    from_some (λ x. fits (pending_row demo_laws config x) ≡ true) from_gateway e h refl
two_events-AllFit bank e h = cc

pub Waiting-IsWell : IsWell demo_laws config (see demo waiting).windows
unfolding Windows.get
Waiting-IsWell k w h = elim (Bool-cases (k == 7)) [
  | inl same ↦
      from_some (λ x. (x.transaction_id ≡ k) × AllFit demo_laws config x.events)
        (window_with two_events) w (ground arith) (ground arith, two_events-AllFit)
  | inr other ↦ absurd (ground arith)
]

-- The state at the time at which the deadline of the window is due.
abbrev due_view : Keyspace
due_view =
    View.zadd_int incident_escalations (pos 0) (pos 0)
      (View.zadd_text deadlines (codec.uuid_to_string 7) (pos 0) empty_keyspace)

abbrev open_row : IncidentRow
open_row = record {
  transaction_id = 7;
  incident_type = "missing_source";
  severity = pos 1;
  description = not_received ("bank" ∷ []) 2000;
  status = "open";
}

abbrev rows : Rows
rows = record { transactions = λ _. none; details = λ _ _. none; incidents = open_row ∷ [] }

-- A server that holds a deadline and an escalation, both due at the time 5.
abbrev due_server : Server
due_server =
    zadd_int incident_escalations (pos 0) (pos 5)
      (zadd_text deadlines (codec.uuid_to_string 7) (pos 5) empty_server)

-- The machine shows the time 5.
abbrev pub due_state : State demo
due_state = record { windows = waiting.windows; redis = due_server; postgres = rows; machine = 5 }

abbrev pub due : Seen
due = see demo due_state

handle_timeout-TimedOut_example :
    Wp
      (see demo)
      due
      (handle_timeout demo config 7)
      (λ _ τ. TimedOut demo_laws config 7 (Windows.get 7 due.windows) due τ)
      (λ _. ⊥)
handle_timeout-TimedOut_example = handle_timeout-TimedOut demo_laws config 7 due Waiting-IsWell

pop_expired_deadlines-Popped_example :
    Wp redis.view due_view
      (pop_expired_deadlines redis codec (pos 9))
      (λ ids w. Deadlines.Popped codec (pos 9) due_view ids w)
      (λ _. ⊥)
pop_expired_deadlines-Popped_example =
    pop_expired_deadlines-Popped redis_laws codec_laws (pos 9) due_view

pop_expired_escalations-Popped_example :
    Wp redis.view due_view
      (pop_expired_escalations redis (pos 9))
      (λ ids w. Escalations.Popped (pos 9) due_view ids w)
      (λ _. ⊥)
pop_expired_escalations-Popped_example = pop_expired_escalations-Popped redis_laws (pos 9) due_view

escalate_incident-once_example :
    Ensures postgres.tables
      (λ again t.
        (again ≡ false)
        × ((k : ℤ)
            → t.incidents k
              ≡ (postgres.tables (escalate_incident postgres (pos 0) (pos 2) rows).1).incidents k))
      (λ _. ⊥)
      (escalate_incident postgres
        (pos 0)
        (pos 2)
        (escalate_incident postgres (pos 0) (pos 2) rows).1)
unfolding escalate_incident ◌>>=◌ pure
escalate_incident-once_example = escalate_incident-once postgres_laws (pos 0) (pos 2) rows true refl

process_expired_escalations-Escalated_example :
    Ensures
      (see demo)
      (λ _ τ. ⊥ ⊎ Escalated demo_laws config due_state (pos 0) open_row τ)
      (λ _. ⊥)
      (process_expired_escalations demo config due_state)
process_expired_escalations-Escalated_example =
    process_expired_escalations-Escalated demo_laws config due_state (pos 0) open_row refl refl refl

-- The merchant's message comes first, and then the timer ticks.
abbrev merchant_entry : Entry
merchant_entry = record { id = "1-0"; payload = some (message_text from_merchant) }

merchant_entry-FitsPayload : FitsPayload demo_laws config merchant_entry.payload
merchant_entry-FitsPayload = rw (read_message_text from_merchant) refl

abbrev one_handled : State demo
one_handled = (step demo config (entry merchant_entry) idle).1

Reaches-IsWell_example :
    ⊥ ⊎ IsWell demo_laws config (step demo config timer_tick one_handled).1.windows
Reaches-IsWell_example =
    Reaches-IsWell demo_laws config (step demo config timer_tick one_handled).1 (
      handled one_handled timer_tick
        (handled idle (entry merchant_entry) (start idle refl) merchant_entry-FitsPayload) tt)

abbrev empty_entry : Entry
empty_entry = record { id = "2-0"; payload = none }

abbrev reply : List (List Entry)
reply = (merchant_entry ∷ empty_entry ∷ []) ∷ []

handle_reply-AreAcknowledged_example :
    Wp
      (see demo)
      (see demo waiting)
      (handle_reply demo config (ok reply))
      (λ _ τ. ⊥ ⊎ AreAcknowledged demo_laws config ("2-0" ∷ "1-0" ∷ []) τ)
      (λ _. ⊥)
handle_reply-AreAcknowledged_example =
    handle_reply-AreAcknowledged demo_laws config reply (see demo waiting)
      ((merchant_entry-FitsPayload, (tt, tt)), tt) Waiting-IsWell

handle_entry-unreadable_example :
    Wp
      (see demo)
      (see demo waiting)
      (handle_entry demo config empty_entry)
      (λ _ τ.
        ⊥ ⊎ (τ ≡ record (see demo waiting) { view = View.xack "2-0" (see demo waiting).view }))
      (λ _. ⊥)
handle_entry-unreadable_example =
    handle_entry-unreadable demo_laws config empty_entry (see demo waiting) tt
