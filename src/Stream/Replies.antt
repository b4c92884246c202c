-- ===== src/Stream/Replies.antt =====
-- What becomes of the entries of a reply (matcher/src/stream.rs).
use code_storm.Prelude.{◌≡◌, ◌⊎◌, refl, ap, ◌∙◌, inl, inr, List, [], ◌∷◌, String, All}
use code_storm.Config.{Config}
use code_storm.Services.{Services, ServiceLaws}
use code_storm.Error.{ok}
use code_storm.Redis.View.{Entry}
use code_storm.Exec.{for_each}
use code_storm.Exec.Wp.{Wp, wp-bind, wp-weaken, wp-pure, wp-any}
use code_storm.Engine.Seen.{Seen, see}
use code_storm.Engine.Handling.Fits.{IsWell}
use code_storm.Stream.{handle_entry, handle_reply}
use code_storm.Stream.Acknowledged.{FitsPayload, handle_entry-IsHandled}

-- The acknowledged entries after some more were, one after another.
abbrev pub acknowledge_all : List Entry → List String → List String
acknowledge_all [] ids = ids
acknowledge_all (e ∷ entries) ids = acknowledge_all entries (e.id ∷ ids)

abbrev pub acknowledge_each : List (List Entry) → List String → List String
acknowledge_each [] ids = ids
acknowledge_each (entries ∷ keys) ids = acknowledge_each keys (acknowledge_all entries ids)

module _ {sv : Services} {F : Type 0} (laws : ServiceLaws F sv) (cfg : Config) where
  abbrev pub FitsEntry : Entry → Type 0
  FitsEntry entry = FitsPayload laws cfg entry.payload

  -- These are the acknowledged entries, and the windows are well-formed.
  abbrev pub AreAcknowledged : List String → Seen → Type 0
  AreAcknowledged ids τ = (τ.view.acknowledged ≡ ids) × IsWell laws cfg τ.windows

  entries-AreAcknowledged :
      (entries : List Entry) (ids : List String) (σ : Seen)
      → All FitsEntry entries
      → AreAcknowledged ids σ
      → Wp
          (see sv)
          σ
          (for_each (handle_entry sv cfg) entries)
          (λ _ τ. F ⊎ AreAcknowledged (acknowledge_all entries ids) τ)
          (λ _. F)
  unfolding for_each
  entries-AreAcknowledged [] ids σ fit h = wp-pure tt (inr h)
  entries-AreAcknowledged (e ∷ entries) ids σ (fit, fits) (same, well) = wp-bind _ _ (
      wp-weaken (handle_entry-IsHandled laws cfg e σ fit well)
        (λ _ ρ. elim [
          | inl f ↦ wp-any _ (λ _ _. inl f) (λ _. f)
          | inr (acked, still) ↦
              entries-AreAcknowledged entries (e.id ∷ ids) ρ fits
                (acked ∙ ap (λ l. e.id ∷ l) same, still)
        ])
        (λ _ f. f))

  keys-AreAcknowledged :
      (keys : List (List Entry)) (ids : List String) (σ : Seen)
      → All (All FitsEntry) keys
      → AreAcknowledged ids σ
      → Wp
          (see sv)
          σ
          (for_each (λ entries. for_each (handle_entry sv cfg) entries) keys)
          (λ _ τ. F ⊎ AreAcknowledged (acknowledge_each keys ids) τ)
          (λ _. F)
  unfolding for_each
  keys-AreAcknowledged [] ids σ fit h = wp-pure tt (inr h)
  keys-AreAcknowledged (entries ∷ keys) ids σ (fit, fits) h = wp-bind _ _ (
      wp-weaken (entries-AreAcknowledged entries ids σ fit h)
        (λ _ ρ. elim [
          | inl f ↦ wp-any _ (λ _ _. inl f) (λ _. f)
          | inr still ↦ keys-AreAcknowledged keys (acknowledge_all entries ids) ρ fits still
        ])
        (λ _ f. f))

  -- Where every window in memory stands under its own transaction with events that fit the
  -- transactions, and so do the texts of the message of every entry of a reply, if it can be read,
  -- then after the reply a service has failed, or all its entries are acknowledged, one after
  -- another in the order of the reply, and none besides, and the windows are still so.
  pub handle_reply-AreAcknowledged :
      (keys : List (List Entry)) (σ : Seen)
      → All (All FitsEntry) keys
      → IsWell laws cfg σ.windows
      → Wp
          (see sv)
          σ
          (handle_reply sv cfg (ok keys))
          (λ _ τ. F ⊎ AreAcknowledged (acknowledge_each keys σ.view.acknowledged) τ)
          (λ _. F)
  handle_reply-AreAcknowledged keys σ fit well =
      keys-AreAcknowledged keys σ.view.acknowledged σ fit (refl, well)
