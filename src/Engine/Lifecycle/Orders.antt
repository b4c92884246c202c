-- ===== src/Engine/Lifecycle/Orders.antt =====
-- The three events of one transaction, in whatever order the stream has them
-- (matcher/src/matcher.rs).
use code_storm.Prelude.{Uuid, true, ◌≡◌, sym, ap, subst, ◌∙◌, List, [], ◌∷◌, All, map}
use code_storm.Config.{Config}
use code_storm.Services.{Services, ServiceLaws}
use code_storm.Exec.{for_each}
use code_storm.Exec.Wp.{Wp, wp-weaken}
use code_storm.Postgres.{fits}
use code_storm.Model.Source.{Source}
use code_storm.Model.Event.{StreamMessage}
use code_storm.Model.Partial.{HashOrder, in_order}
use code_storm.Engine.Seen.{Seen, see}
use code_storm.Engine.Handling.Duplicate.{pending_row}
use code_storm.Engine.Handling.Fits.{IsWell}
use code_storm.Engine.Lifecycle.{life}
use code_storm.Engine.Lifecycle.Occasions.{arrival, lived, perform, IsPossible, occasions-lived}
use code_storm.Engine.Lifecycle.Trio.{IsNew, IsSettled, orders-IsSettled}

module _ {sv : Services} {F : Type 0} (laws : ServiceLaws F sv) (cfg : Config) where
  arrivals-IsPossible :
      (messages : Source → StreamMessage) (sources : List Source)
      → ((s : Source) → fits (pending_row laws cfg (messages s).event) ≡ true)
      → All (IsPossible laws cfg) (map (λ s. arrival (messages s)) sources)
  arrivals-IsPossible messages [] h = tt
  arrivals-IsPossible messages (s ∷ sources) h = (h s, arrivals-IsPossible messages sources h)

  -- Where three sources are expected, the texts of three events, one of each source of one
  -- transaction under different ids, fit the columns of the transactions, none of the ids is
  -- taken, none of the sources has reported, no window of the transaction is in memory, and every
  -- window stands under its own transaction with events that fit, handling the three in any order,
  -- while no key of Redis expires, unless a service fails, leaves no window of the transaction in
  -- memory and gives it the status matched if the three agree and mismatch if they do not.
  pub any_order-IsSettled :
      (order : HashOrder) (messages : Source → StreamMessage) (tx : Uuid) (σ : Seen)
      → cfg.expected_sources_count ≡ 3
      → ((s : Source) → fits (pending_row laws cfg (messages s).event) ≡ true)
      → IsNew tx (λ s. (messages s).event) (life σ)
      → IsWell laws cfg σ.windows
      → Wp
          (see sv)
          σ
          (for_each (perform sv cfg) (map (λ s. arrival (messages s)) (in_order order)))
          (λ _ τ. IsSettled tx (λ s. (messages s).event) (life τ))
          (λ _. F)
  any_order-IsSettled order messages tx σ three fit new well =
      wp-weaken
        (occasions-lived laws cfg (map (λ s. arrival (messages s)) (in_order order)) σ
          (arrivals-IsPossible messages (in_order order) fit) well)
        (λ _ τ e.
          subst (IsSettled tx (λ s. (messages s).event))
            (sym (
              e
              ∙ ap (λ n. lived n (map (λ s. arrival (messages s)) (in_order order)) (life σ))
                  three))
            (orders-IsSettled order messages tx (life σ) new))
        (λ _ f. f)
