-- ===== src/Engine/Apart/Handling.antt =====
-- The handlers of the engine (matcher/src/matcher.rs) for one transaction leave the others alone,
-- whether they end well or in an error.
use code_storm.Model.Invariants.{check_invariants}
use code_storm.Prelude.{subst, Uuid, true, ◌≡◌, refl, ◌==◌, ℕ, if◌then◌else◌}
use code_storm.Prelude.Int.{ℤ, add_i64}
use code_storm.Config.{Config}
use code_storm.Services.{Services, ServiceLaws}
use code_storm.Exec.Wp.{wp-bind, wp-gets, wp-if}
use code_storm.Exec.Keeps.{IsFrame, bind-Keeps, if-Keeps, pure-Keeps, KeepsFrom}
use code_storm.Model.Event.{PaymentEvent}
use code_storm.Model.Partial.{PartialTransaction, is_complete, len}
use code_storm.Engine.Parts.{on_postgres}
use code_storm.Engine.Seen.{Seen, see}
use code_storm.Engine.{
  finalize_window, handle_duplicate, open_window, complete_window, keep_waiting, settle,
  on_postgres, gather, with_event,
}
use code_storm.Engine.Apart.{
  Scope, Apart, IsApart, apart-IsFrame, on_redis-IsApart, on_postgres-IsApart,
}
use code_storm.Engine.Apart.Stores.{
  save_window-Leaves, add_deadline-Leaves, upsert_details-LeavesTables,
}
use code_storm.Engine.Apart.Steps.{
  insert-IsApart, reading-IsApart, elapsed-IsApart, publish_event-IsApart, persist_incident-IsApart,
  cleanup_window-IsApart, report-IsApart, metrics-IsApart, store_row-IsApart,
}
use code_storm.Model.Details.{build_details}
use code_storm.Engine.Timers.{degrade_window}
use code_storm.Engine.Handling.Opening.{found_at}
use code_storm.Store.PostgresStore

module _ {sv : Services} {F : Type 0} (laws : ServiceLaws F sv) (cfg : Config) (scope : Scope) where
  store_details-IsApart :
      (tx : Uuid) (p : PartialTransaction)
      → IsApart sv scope tx (
          on_postgres sv
            (PostgresStore.upsert_reconciliation_details sv.postgres tx (build_details p)))
  store_details-IsApart tx p =
      on_postgres-IsApart sv scope tx
        (upsert_details-LeavesTables laws.postgres_laws tx (build_details p))

  closed_window-IsApart :
      (p : PartialTransaction)
      → scope.own_sources ≡ true
      → IsApart sv scope p.transaction_id (finalize_window sv cfg p)
  unfolding finalize_window
  closed_window-IsApart p own =
      let tx = p.transaction_id in
      let frame = apart-IsFrame sv.codec scope tx in
      bind-Keeps frame _ _ (reading-IsApart laws cfg scope tx _) (λ start.
        bind-Keeps frame _ _ (reading-IsApart laws cfg scope tx _) (λ now_ms.
          bind-Keeps frame _ _ (elapsed-IsApart laws cfg scope tx _) (λ spent.
            bind-Keeps frame _ _ (store_row-IsApart laws cfg scope tx _ _ _ _ _) (λ _.
              bind-Keeps frame _ _ (store_details-IsApart tx p) (λ _.
                bind-Keeps frame _ _ (report-IsApart laws cfg scope tx now_ms (check_invariants p))
                  (λ _. cleanup_window-IsApart laws cfg scope tx own))))))

module _ {sv : Services} {F : Type 0} (laws : ServiceLaws F sv) (cfg : Config) (scope : Scope)
    (tx : Uuid) where
  abbrev frame : IsFrame (Apart sv.codec scope tx)
  frame = apart-IsFrame sv.codec scope tx

  pub finalize_window-IsApart :
      (p : PartialTransaction)
      → p.transaction_id ≡ tx
      → scope.own_sources ≡ true
      → IsApart sv scope tx (finalize_window sv cfg p)
  finalize_window-IsApart p e own =
      subst (λ t. IsApart sv scope t (finalize_window sv cfg p)) e
        (closed_window-IsApart laws cfg scope p own)

  complete_window-IsApart :
      (p : PartialTransaction) (start : ℕ)
      → p.transaction_id ≡ tx
      → scope.own_sources ≡ true
      → IsApart sv scope tx (complete_window sv cfg p start)
  unfolding complete_window
  complete_window-IsApart p start e own =
      bind-Keeps frame _ _ (elapsed-IsApart laws cfg scope tx start) (λ spent.
        bind-Keeps frame _ _
          (finalize_window-IsApart
            (record p { processing_time_micros = add_i64 p.processing_time_micros spent }) e own)
          (λ _. pure-Keeps frame _))

  keep_waiting-IsApart :
      (p : PartialTransaction) (now_ms : ℤ) (start : ℕ)
      → p.transaction_id ≡ tx
      → IsApart sv scope tx (keep_waiting sv cfg tx p now_ms start)
  unfolding keep_waiting
  keep_waiting-IsApart p now_ms start e =
      bind-Keeps frame _ _ (publish_event-IsApart laws cfg scope tx _) (λ _.
        bind-Keeps frame _ _ (elapsed-IsApart laws cfg scope tx start) (λ spent.
          let updated = record p {
            processing_time_micros = add_i64 p.processing_time_micros spent;
          } in
          bind-Keeps frame _ _ (insert-IsApart laws cfg scope tx updated) (λ _.
            bind-Keeps frame _ _
              (on_redis-IsApart sv scope tx
                (save_window-Leaves laws.redis_laws laws.codec_laws scope tx updated e))
              (λ _. pure-Keeps frame _))))

  pub degrade_window-IsApart :
      (p : PartialTransaction)
      → scope.own_sources ≡ true
      → IsApart sv scope tx (degrade_window sv cfg tx p)
  unfolding degrade_window
  degrade_window-IsApart p own =
      bind-Keeps frame _ _ (store_row-IsApart laws cfg scope tx _ _ _ _ _) (λ _.
        bind-Keeps frame _ _ (store_details-IsApart laws cfg scope tx p) (λ _.
          bind-Keeps frame _ _ (persist_incident-IsApart laws cfg scope tx _)
            (λ _. cleanup_window-IsApart laws cfg scope tx own)))

module _ {sv : Services} {F : Type 0} (laws : ServiceLaws F sv) (cfg : Config) (scope : Scope)
    (event : PaymentEvent) where
  abbrev tx_id : Uuid
  tx_id = event.transaction_id

  abbrev around : IsFrame (Apart sv.codec scope tx_id)
  around = apart-IsFrame sv.codec scope tx_id

  pub handle_duplicate-IsApart :
      (start : ℕ) → IsApart sv scope tx_id (handle_duplicate sv cfg event start)
  unfolding handle_duplicate
  handle_duplicate-IsApart start =
      bind-Keeps around _ _ (store_row-IsApart laws cfg scope tx_id _ _ _ _ _) (λ _.
        bind-Keeps around _ _ (persist_incident-IsApart laws cfg scope tx_id _) (λ _.
          bind-Keeps around _ _ (elapsed-IsApart laws cfg scope tx_id start) (λ _.
            bind-Keeps around _ _ (reading-IsApart laws cfg scope tx_id _)
              (λ _. metrics-IsApart laws cfg scope tx_id _ _ _ _))))

  open_window-IsApart :
      (p : PartialTransaction) (now_ms : ℤ)
      → IsApart sv scope tx_id (open_window sv cfg event p now_ms)
  unfolding open_window
  open_window-IsApart p now_ms =
      bind-Keeps around _ _
        (on_redis-IsApart sv scope tx_id
          (add_deadline-Leaves laws.redis_laws laws.codec_laws scope tx_id p.deadline_ms))
        (λ _. publish_event-IsApart laws cfg scope tx_id _)

  settle-IsApart :
      (p : PartialTransaction) (start : ℕ) (now_ms : ℤ)
      → p.transaction_id ≡ tx_id
      → (is_complete p cfg.expected_sources_count ≡ true → scope.own_sources ≡ true)
      → IsApart sv scope tx_id (settle sv cfg event p start now_ms)
  unfolding settle
  settle-IsApart p start now_ms e own = bind-Keeps around _ _ branch (λ _.
      bind-Keeps around _ _ (elapsed-IsApart laws cfg scope tx_id start) (λ _.
        bind-Keeps around _ _ (reading-IsApart laws cfg scope tx_id _)
          (λ _. metrics-IsApart laws cfg scope tx_id _ _ _ _)))
    where
      branch : IsApart sv scope tx_id (
          if is_complete p cfg.expected_sources_count
          then complete_window sv cfg p start
          else keep_waiting sv cfg tx_id p now_ms start)
      branch σ =
          wp-if _ _ _ (λ full. complete_window-IsApart laws cfg scope tx_id p start e (own full) σ)
            (λ _. keep_waiting-IsApart laws cfg scope tx_id p now_ms start e σ)

  -- Where the window that the event finds is that of its transaction.
  pub gather-IsApart :
      (start : ℕ) (now_ms : ℤ) (σ : Seen)
      → (found_at laws cfg event now_ms σ).transaction_id ≡ tx_id
      → (is_complete
              (with_event sv cfg event (found_at laws cfg event now_ms σ))
              cfg.expected_sources_count
            ≡ true
          → scope.own_sources ≡ true)
      → KeepsFrom (see sv) (Apart sv.codec scope tx_id) σ (gather sv cfg event start now_ms)
  unfolding gather
  gather-IsApart start now_ms σ e own =
      let found = found_at laws cfg event now_ms σ in
      let p = with_event sv cfg event found in
      wp-bind _ _ (
        wp-gets _ (found_at laws cfg event now_ms) (λ s. refl)
          (bind-Keeps around _ _ (insert-IsApart laws cfg scope tx_id found)
            (λ _.
              bind-Keeps around _ _
                (if-Keeps around (len found.events == 0) _ _ (open_window-IsApart p now_ms)
                  (pure-Keeps around tt))
                (λ _. bind-Keeps around _ _ (insert-IsApart laws cfg scope tx_id p) (λ _.
                  bind-Keeps around _ _
                    (on_redis-IsApart sv scope tx_id
                      (save_window-Leaves laws.redis_laws laws.codec_laws scope tx_id p e))
                    (λ _. settle-IsApart p start now_ms e own))))
            σ))
