-- ===== src/Engine/Handling/Outcome.antt =====
-- `handle_event` (matcher/src/matcher.rs) for an event that is new, by what is seen before it.
use code_storm.Prelude.{
  ◌==◌, refl, sym, ap, ◌∙◌, Bool, Bool-cases, false, if◌then◌else◌, Uuid, ◌≡◌, some, true, arith,
  inl, inr, ℕ, not, none,
}
use code_storm.Prelude.Int.{ℤ}
use code_storm.Config.{Config}
use code_storm.Services.{Services, ServiceLaws}
use code_storm.Postgres.{fits}
use code_storm.Model.Source.{Source, merchant}
use code_storm.Model.Event.{PaymentEvent, StreamMessage}
use code_storm.Model.Partial.{len, is_complete, PartialTransaction}
use code_storm.Redis.View.{deadlines, Keyspace, window, sources, dedup_event}
use code_storm.Engine.{gather, handle_duplicate, handle_event, handle_claimed, with_event}
use code_storm.Store.RedisStore.Claims.{claim-Wp, register-Wp}
use code_storm.Exec.Wp.{Wp, wp-bind, wp-if, wp-weaken}
use code_storm.Engine.Seen.{Seen, see, wp-redis, wp-reading}
use code_storm.Engine.Handling.Duplicate.{Duplicated, handle_duplicate-Duplicated, pending_row}
use code_storm.Engine.Handling.Gather.{Waiting, gather-Waiting}
use code_storm.Engine.Handling.Opening.{found_at}
use code_storm.Engine.Handling.Completion.{Completed, gather-Completed}
use code_storm.Model.Source
use code_storm.Engine.Handling.Fits.{IsWell, closing_fits, found-IsWell, with_event-AllFit}

pub of_not-true : (b : Bool) → not b ≡ true → b ≡ false
of_not-true b h = ground arith

pub of_not-false : (b : Bool) → not b ≡ false → b ≡ true
of_not-false b h = ground arith

module _ {sv : Services} {F : Type 0} (laws : ServiceLaws F sv) (cfg : Config) where
  -- What a new event comes to, by what is seen before it at the time `now_ms`.
  abbrev pub Outcome : PaymentEvent → ℤ → Seen → Seen → Type 0
  Outcome event now_ms σ τ =
      let p = with_event sv cfg event (found_at laws cfg event now_ms σ) in
      if σ.view.sets (sources event.transaction_id) (Source.to_string event.source)
      then Duplicated laws cfg event σ τ
      else if is_complete p cfg.expected_sources_count
      then Completed laws cfg p σ τ
      else Waiting laws cfg event now_ms σ τ

  -- Waiting and completion do not depend on what Redis held before.
  Waiting-view :
      (event : PaymentEvent) (now_ms : ℤ) (σ τ : Seen) (v : Keyspace)
      → v.text_zsets ≡ σ.view.text_zsets
      → Waiting laws cfg event now_ms (record σ { view = v }) τ
      → Waiting laws cfg event now_ms σ τ
  Waiting-view event now_ms σ τ v e w = record {
    kept = w.kept;
    windows = w.windows;
    saved = w.saved;
    events = w.events;
    same_id = w.same_id;
    same_deadline = w.same_deadline;
    due =
        w.due
        ∙ ap
            (λ z.
              if len (found_at laws cfg event now_ms σ).events == 0
              then some w.kept.deadline_ms
              else z deadlines (sv.codec.uuid_to_string event.transaction_id))
            e;
    tables = w.tables;
  }

  Completed-view :
      (p : PartialTransaction) (σ τ : Seen) (v : Keyspace)
      → Completed laws cfg p (record σ { view = v }) τ
      → Completed laws cfg p σ τ
  Completed-view p σ τ v c = record {
    forgotten = record {
      windows = c.forgotten.windows;
      no_window = c.forgotten.no_window;
      no_sources = c.forgotten.no_sources;
      no_deadline = c.forgotten.no_deadline;
    };
    status = c.status;
    details = c.details;
    announced = c.announced;
  }

  -- What the claim of an event and the registration of its source leave alone.
  record Claimed (v w : Keyspace) : Type 0 where
    windows : (k : Uuid) → w.strings (window k) ≡ v.strings (window k)
    text_zsets : w.text_zsets ≡ v.text_zsets

  duplicate-Outcome :
      (event : PaymentEvent) (start_inst : ℕ) (now_ms : ℤ) (σ : Seen) (v : Keyspace)
      → Claimed σ.view v
      → σ.view.sets (sources event.transaction_id) (Source.to_string event.source) ≡ true
      → fits (pending_row laws cfg event) ≡ true
      → Wp
          (see sv)
          (record σ { view = v })
          (handle_duplicate sv cfg event start_inst)
          (λ _ τ. (now_ms : ℤ) × Outcome event now_ms σ τ)
          (λ _. F)
  duplicate-Outcome event start_inst now_ms σ v c second ok_event =
      wp-weaken
        (handle_duplicate-Duplicated laws cfg event start_inst (record σ { view = v }) ok_event)
        (λ _ τ d. (
          now_ms,
          rw second (record {
            windows = d.windows;
            saved = λ k. d.saved k ∙ c.windows k;
            deadlines = d.deadlines ∙ c.text_zsets;
            status = d.status;
            recorded = d.recorded;
          }),
        ))
        (λ _ f. f)

  gather-Outcome :
      (event : PaymentEvent) (start_inst : ℕ) (now_ms : ℤ) (σ : Seen) (v : Keyspace)
      → Claimed σ.view v
      → σ.view.sets (sources event.transaction_id) (Source.to_string event.source) ≡ false
      → fits (pending_row laws cfg event) ≡ true
      → IsWell laws cfg σ.windows
      → Wp
          (see sv)
          (record σ { view = v })
          (gather sv cfg event start_inst now_ms)
          (λ _ τ. (now_ms : ℤ) × Outcome event now_ms σ τ)
          (λ _. F)
  gather-Outcome event start_inst now_ms σ v c first ok_event well =
      let p = with_event sv cfg event (found_at laws cfg event now_ms σ) in
      let (mine, fit) = found-IsWell laws cfg event now_ms σ well in
      elim (Bool-cases (is_complete p cfg.expected_sources_count)) [
        | inl full ↦
            wp-weaken
              (gather-Completed laws cfg event start_inst now_ms (record σ { view = v }) full
                (closing_fits laws cfg p (
                  with_event-AllFit laws cfg event (found_at laws cfg event now_ms σ).events fit
                    ok_event))
                mine)
              (λ _ τ c. (now_ms, rw first (rw full (Completed-view p σ τ v c)))) (λ _ f. f)
        | inr partial ↦
            wp-weaken
              (gather-Waiting laws cfg event start_inst now_ms (record σ { view = v }) partial)
              (λ _ τ w.
                (now_ms, rw first (rw partial (Waiting-view event now_ms σ τ v c.text_zsets w))))
              (λ _ f. f)
      ]

  Claimed-Outcome :
      (event : PaymentEvent) (start_inst : ℕ) (σ : Seen) (v : Keyspace)
      → Claimed σ.view v
      → v.sets ≡ σ.view.sets
      → fits (pending_row laws cfg event) ≡ true
      → IsWell laws cfg σ.windows
      → Wp
          (see sv)
          (record σ { view = v })
          (handle_claimed sv cfg event start_inst)
          (λ _ τ. (now_ms : ℤ) × Outcome event now_ms σ τ)
          (λ _. F)
  unfolding handle_claimed
  Claimed-Outcome event start_inst σ v c same ok_event well =
      let src = Source.to_string event.source in
      wp-bind _ _ (
        wp-reading sv _ λ now_ms. wp-bind _ _ (
          wp-redis sv (
            register-Wp laws.redis_laws event.transaction_id event.source v (
              wp-if (not (v.sets (sources event.transaction_id) src)) _ _
                (λ first.
                  gather-Outcome event start_inst now_ms σ _
                    (record { windows = c.windows; text_zsets = c.text_zsets })
                    (sym (ap (λ z. z (sources event.transaction_id) src) same)
                      ∙ of_not-true _ first)
                    ok_event well)
                (λ second.
                  duplicate-Outcome event start_inst now_ms σ _
                    (record { windows = c.windows; text_zsets = c.text_zsets })
                    (sym (ap (λ z. z (sources event.transaction_id) src) same)
                      ∙ of_not-false _ second)
                    ok_event)))))

  -- Where the id of an event is not claimed, its texts fit the columns of the transactions and
  -- every window in memory stands under its own transaction with events that fit, `handle_event`,
  -- unless a service fails, has one of three outcomes at some time `now_ms`: for a source that was
  -- registered before, a duplicate is recorded; for the event that completes its window, the
  -- window is closed with its verdict; for any other, the window waits with the event in it.
  pub handle_event-Outcome :
      (msg : StreamMessage) (σ : Seen)
      → σ.view.strings (dedup_event msg.event.event_id) ≡ none
      → fits (pending_row laws cfg msg.event) ≡ true
      → IsWell laws cfg σ.windows
      → Wp
          (see sv)
          σ
          (handle_event sv cfg msg)
          (λ _ τ. (now_ms : ℤ) × Outcome msg.event now_ms σ τ)
          (λ _. F)
  unfolding handle_event
  handle_event-Outcome msg σ fresh ok_event well = wp-bind _ _ (
      wp-reading sv _ λ start_inst. wp-bind _ _ (
        wp-redis sv (
          claim-Wp laws.redis_laws msg.event.event_id cfg.reconciler_dedup_window_ms σ.view (
            rw fresh (
              Claimed-Outcome msg.event start_inst σ _
                (record { windows = λ k. refl; text_zsets = refl }) refl ok_event well)))))
