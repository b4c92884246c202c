-- ===== src/Examples/LifeCases.antt =====
-- The theorems on the life of the transactions, on the services that never fail.
use code_storm.Exec.Ensures.{Ensures}
use code_storm.Prelude.{refl, false, ◌≡◌, ◌==◌, [], ◌∷◌, map, List, ◌⊎◌, some}
use code_storm.Exec.{for_each}
use code_storm.Examples.TextCodec.{codec}
use code_storm.Exec.Wp.{Wp}
use code_storm.Model.Source.{Source, merchant, gateway, bank}
use code_storm.Model.Event.{StreamMessage}
use code_storm.Model.Partial.{in_order, bgm}
use code_storm.Engine.Seen.{see}
use code_storm.Engine.Apart.{Apart}
use code_storm.Engine.Lifecycle.{life}
use code_storm.Engine.Lifecycle.Occasions.{
  arrival, deadline, lived, perform, scope_of, occasions-lived, occasion-IsApart, Occasion,
}
use code_storm.Engine.Timers.{process_expired_windows}
use code_storm.Engine.Lifecycle.Redelivered.{occasions-once}
use code_storm.Engine.Lifecycle.Ticks.{process_expired_windows-lived, Expired}
use code_storm.Engine.Lifecycle.Sound.{Came, is_matched, Agreed}
use code_storm.Engine.Lifecycle.Sound.Matched.{matched-Agreed}
use code_storm.Examples.Demo.{
  two_events, demo, demo_laws, config, idle, waiting, message, from_merchant, from_gateway,
  from_bank,
}
use code_storm.Engine.Lifecycle.Ticks.Concluded.{
  IsConcluded, ending, process_expired_windows-IsConcluded,
}
use code_storm.Engine.Lifecycle.Trio.{IsNew, IsSettled}
use code_storm.Engine.Lifecycle.Orders.{any_order-IsSettled}
use code_storm.Runs.{no_windows-IsWell}
use code_storm.Examples.TimerCases.{Waiting-IsWell, due_state}
use code_storm.Model.Source
use code_storm.Engine.Windows

-- The bank's event, again the bank's, and the deadline of the transaction.
occasions-lived_example :
    Wp
      (see demo)
      (see demo waiting)
      (for_each
        (perform demo config)
        (arrival (message from_bank) ∷ arrival (message from_bank) ∷ deadline 7 ∷ []))
      (λ _ τ.
        life τ
        ≡ lived 3
            (arrival (message from_bank) ∷ arrival (message from_bank) ∷ deadline 7 ∷ [])
            (life (see demo waiting)))
      (λ _. ⊥)
occasions-lived_example =
    occasions-lived demo_laws config
      (arrival (message from_bank) ∷ arrival (message from_bank) ∷ deadline 7 ∷ [])
      (see demo waiting) (refl, (refl, (tt, tt))) Waiting-IsWell

occasion-IsApart_example :
    Wp
      (see demo)
      (see demo waiting)
      (perform demo config (arrival (message from_bank)))
      (λ _ τ. Apart demo.codec (scope_of (arrival (message from_bank))) 7 (see demo waiting) τ)
      (λ τ. Apart demo.codec (scope_of (arrival (message from_bank))) 7 (see demo waiting) τ)
occasion-IsApart_example =
    occasion-IsApart demo_laws config (arrival (message from_bank)) (see demo waiting)
      (λ w h. (Waiting-IsWell 7 w h).0)

abbrev messages : Source → StreamMessage
messages merchant = message from_merchant
messages gateway = message from_gateway
messages bank = message from_bank

distinct_ids :
    (s t : Source)
    → Source.◌==◌ s t ≡ false
    → ((messages s).event.event_id == (messages t).event.event_id) ≡ false
distinct_ids merchant merchant h = h
distinct_ids merchant gateway h = refl
distinct_ids merchant bank h = refl
distinct_ids gateway merchant h = refl
distinct_ids gateway gateway h = h
distinct_ids gateway bank h = refl
distinct_ids bank merchant h = refl
distinct_ids bank gateway h = refl
distinct_ids bank bank h = h

messages-IsNew : IsNew 7 (λ s. (messages s).event) (life (see demo idle))
unfolding Windows.get
messages-IsNew = record {
  same_tx = elim [ merchant ↦ refl | gateway ↦ refl | bank ↦ refl ];
  own_source = elim [ merchant ↦ refl | gateway ↦ refl | bank ↦ refl ];
  distinct = distinct_ids;
  unclaimed = elim [ merchant ↦ refl | gateway ↦ refl | bank ↦ refl ];
  unregistered = λ s. refl;
  nothing = refl;
}

any_order-IsSettled_example :
    Wp
      (see demo)
      (see demo idle)
      (for_each (perform demo config) (map (λ s. arrival (messages s)) (in_order bgm)))
      (λ _ τ. IsSettled 7 (λ s. (messages s).event) (life τ))
      (λ _. ⊥)
any_order-IsSettled_example =
    any_order-IsSettled demo_laws config bgm messages 7 (see demo idle) refl
      (elim [ merchant ↦ refl | gateway ↦ refl | bank ↦ refl ]) messages-IsNew
      (no_windows-IsWell demo_laws config [] refl)

-- The bank's event is delivered twice.
occasions-once_example :
    Wp
      (see demo)
      (see demo waiting)
      (for_each
        (perform demo config)
        (arrival (message from_bank) ∷ arrival (message from_bank) ∷ []))
      (λ _ τ. life τ ≡ lived 3 (arrival (message from_bank) ∷ []) (life (see demo waiting)))
      (λ _. ⊥)
occasions-once_example =
    occasions-once demo_laws config (arrival (message from_bank) ∷ arrival (message from_bank) ∷ [])
      (see demo waiting) (refl, (refl, tt)) Waiting-IsWell

process_expired_windows-lived_example :
    Ensures
      (see demo)
      (λ _ τ. ⊥ ⊎ Expired demo_laws config due_state τ)
      (λ _. ⊥)
      (process_expired_windows demo config due_state)
process_expired_windows-lived_example =
    process_expired_windows-lived demo_laws config due_state Waiting-IsWell

abbrev three_arrivals : List Occasion
three_arrivals =
    arrival (message from_gateway)
    ∷ arrival (message from_bank)
    ∷ arrival (message from_merchant)
    ∷ []

matched-Agreed_example :
    Wp
      (see demo)
      (see demo idle)
      (for_each (perform demo config) three_arrivals)
      (λ _ τ. (is_matched ((life τ).status 7) ≡ false) ⊎ Agreed (λ e. Came e three_arrivals) 7)
      (λ _. ⊥)
unfolding Windows.get
matched-Agreed_example =
    matched-Agreed demo_laws config three_arrivals 7 (see demo idle) (refl, (refl, (refl, tt)))
      (no_windows-IsWell demo_laws config [] refl) refl refl

-- The two events that wait when the deadline is due.
process_expired_windows-IsConcluded_example :
    Ensures
      (see demo)
      (λ _ τ. ⊥ ⊎ IsConcluded 7 (some (ending 3 two_events)) (life τ))
      (λ _. ⊥)
      (process_expired_windows demo config due_state)
unfolding Windows.get codec
process_expired_windows-IsConcluded_example =
    process_expired_windows-IsConcluded demo_laws config 7 two_events due_state Waiting-IsWell refl
      refl
