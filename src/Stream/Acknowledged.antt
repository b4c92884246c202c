-- ===== src/Stream/Acknowledged.antt =====
-- Which entries of the stream are acknowledged, and what else becomes of them.
use code_storm.Prelude.{◌≡◌, ◌⊎◌, refl, inl, inr, some, none, true, Option, ◌∷◌, String, ap}
use code_storm.Config.{Config}
use code_storm.Services.{Services, ServiceLaws}
use code_storm.Error.{ReconcilerError, Result, ok, err}
use code_storm.Postgres.{fits}
use code_storm.Redis.View.{xack, Entry}
use code_storm.Exec.{ignore}
use code_storm.Exec.Wp.{Wp, wp-bind, wp-command, wp-weaken, wp-pure, wp-ignore, wp-both}
use code_storm.Model.Event.{StreamMessage}
use code_storm.Engine.Apart.Whole.{handle_event-IsApart}
use code_storm.Engine.Seen.{Seen, see, wp-redis}
use code_storm.Engine.Handling.Duplicate.{pending_row}
use code_storm.Engine.Handling.Fits.{IsWell}
use code_storm.Engine.Handling.Kept.{handle_event-IsWell}
use code_storm.Stream.{ack_message, handle_parsed, handle_payload, handle_entry}

module _ {sv : Services} {F : Type 0} (laws : ServiceLaws F sv) (cfg : Config) where
  ack-Wp :
      (id : String) (σ : Seen) {Q : Unit {0} → Seen → Type 0}
      → Q tt (record σ { view = xack id σ.view })
      → Wp (see sv) σ (ack_message sv cfg id) Q (λ _. F)
  unfolding ack_message
  ack-Wp id σ q = wp-bind _ _ (
      wp-redis sv (
        wp-command (laws.redis_laws.xack_law cfg.redis_stream_name cfg.redis_consumer_group id)
          (λ _ _. wp-pure tt q) (λ f. f) (λ _ f _. f)))

  -- A message that cannot be read is acknowledged, and that is all.
  abbrev Skipped : String → Seen → Seen → Type 0
  Skipped id σ τ = F ⊎ (τ ≡ record σ { view = xack id σ.view })

  skip-Wp :
      (id : String) (σ : Seen)
      → Wp (see sv) σ (ignore (ack_message sv cfg id)) (λ _ τ. Skipped id σ τ) (λ _. F)
  skip-Wp id σ =
      wp-ignore _
        (wp-weaken {Q = λ _ τ. Skipped id σ τ} (ack-Wp id σ refl) (λ _ _ e. inr e) (λ _ f. inl f))

  -- The payload of an entry cannot be read as a message.
  abbrev pub IsUnreadable : Option String → Type 0
  IsUnreadable none = Unit
  IsUnreadable (some payload) = (e : ReconcilerError) × (sv.codec.message_from_json payload ≡ err e)

  unreadable_payload :
      (id : String) (payload : Option String) (σ : Seen)
      → IsUnreadable payload
      → Wp (see sv) σ (handle_payload sv cfg id payload) (λ _ τ. Skipped id σ τ) (λ _. F)
  unreadable_payload id none σ h = skip-Wp id σ
  unreadable_payload id (some payload) σ (e, h) = rw h (skip-Wp id σ)

  -- After an entry whose payload is missing or cannot be read as a message, a service has failed,
  -- or the entry is acknowledged and nothing else that is seen has changed.
  pub handle_entry-unreadable :
      (entry : Entry) (σ : Seen)
      → IsUnreadable entry.payload
      → Wp
          (see sv)
          σ
          (handle_entry sv cfg entry)
          (λ _ τ. F ⊎ (τ ≡ record σ { view = xack entry.id σ.view }))
          (λ _. F)
  unfolding handle_entry
  handle_entry-unreadable entry σ h = unreadable_payload entry.id entry.payload σ h

  -- The texts of a message, if there is one, fit the columns of the transactions.
  abbrev pub FitsParsed : Result StreamMessage → Type 0
  FitsParsed (err e) = Unit
  FitsParsed (ok msg) = fits (pending_row laws cfg msg.event) ≡ true

  abbrev pub FitsPayload : Option String → Type 0
  FitsPayload none = Unit
  FitsPayload (some payload) = FitsParsed (sv.codec.message_from_json payload)

  -- The entry is acknowledged, and the windows are well-formed.
  abbrev pub IsHandled : String → Seen → Seen → Type 0
  IsHandled id σ τ = (τ.view.acknowledged ≡ id ∷ σ.view.acknowledged) × IsWell laws cfg τ.windows

  skipped-Wp :
      (id : String) (σ : Seen)
      → IsWell laws cfg σ.windows
      → Wp (see sv) σ (ignore (ack_message sv cfg id)) (λ _ τ. F ⊎ IsHandled id σ τ) (λ _. F)
  skipped-Wp id σ well = wp-ignore _ (
      wp-weaken {Q = λ _ τ. F ⊎ IsHandled id σ τ}
        (ack-Wp id σ {Q = λ _ τ. IsHandled id σ τ} (refl, well)) (λ _ _ h. inr h) (λ _ f. inl f))

  parsed-Wp :
      (id : String) (r : Result StreamMessage) (σ : Seen)
      → FitsParsed r
      → IsWell laws cfg σ.windows
      → Wp (see sv) σ (handle_parsed sv cfg id r) (λ _ τ. F ⊎ IsHandled id σ τ) (λ _. F)
  parsed-Wp id (err e) σ fit well = skipped-Wp id σ well
  parsed-Wp id (ok msg) σ fit well = wp-ignore _ (
      wp-bind _ _ (
        wp-weaken
          (wp-both (handle_event-IsWell laws cfg msg σ fit well)
            (handle_event-IsApart laws cfg msg σ (λ w h. (well msg.event.transaction_id w h).0)))
          (λ _ ρ (still, a).
            wp-weaken
              (ack-Wp id ρ {Q = λ _ τ. IsHandled id σ τ}
                (ap (λ l. id ∷ l) a.view.acknowledged, still))
              (λ _ _ h. inr h) (λ _ f. inl f))
          (λ _ (f, _). inl f)))

  payload-Wp :
      (id : String) (payload : Option String) (σ : Seen)
      → FitsPayload payload
      → IsWell laws cfg σ.windows
      → Wp (see sv) σ (handle_payload sv cfg id payload) (λ _ τ. F ⊎ IsHandled id σ τ) (λ _. F)
  payload-Wp id none σ fit well = skipped-Wp id σ well
  payload-Wp id (some payload) σ fit well =
      parsed-Wp id (sv.codec.message_from_json payload) σ fit well

  -- Where every window in memory stands under its own transaction with events that fit the
  -- transactions, and so do the texts of the message of an entry if it can be read, then after the
  -- entry a service has failed, or the entry alone was acknowledged and the windows are still so.
  pub handle_entry-IsHandled :
      (entry : Entry) (σ : Seen)
      → FitsPayload entry.payload
      → IsWell laws cfg σ.windows
      → Wp (see sv) σ (handle_entry sv cfg entry) (λ _ τ. F ⊎ IsHandled entry.id σ τ) (λ _. F)
  unfolding handle_entry
  handle_entry-IsHandled entry σ fit well = payload-Wp entry.id entry.payload σ fit well
