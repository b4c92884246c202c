-- ===== src/Examples/EngineCases.antt =====
-- The theorems on the engine and the stores, on the services that never fail.
use code_storm.Prelude.{[], [], none, some, ◌≡◌, refl, leb, if◌then◌else◌}
use code_storm.Prelude.Int.{ℤ, pos}
use code_storm.Exec.{◌>>=◌, pure, lift}
use code_storm.Exec.Wp.{Wp}
use code_storm.Exec.Ensures.{Ensures}
use code_storm.Redis.View.{dedup_event, set_px}
use code_storm.Model.Partial.{is_complete, new}
use code_storm.Store.RedisStore.{try_claim_event, save_window, load_window, record_event_processed}
use code_storm.Store.RedisStore.Claims.{claim_again}
use code_storm.Store.RedisStore.Windows.{load-save}
use code_storm.Store.RedisStore.Metrics.{Metered, record_event_processed-Metered}
use code_storm.Engine.{handle_event, handle_duplicate, gather, finalize_window}
use code_storm.Engine.Seen.{Seen, see}
use code_storm.Engine.Windows
use code_storm.Engine.Finalize.Closing.{Finalized, finalize_window-Finalized}
use code_storm.Engine.Handling.Retry.{handle_event-claimed}
use code_storm.Engine.Handling.Duplicate.{Duplicated, handle_duplicate-Duplicated}
use code_storm.Engine.Handling.Gather.{Waiting, gather-Waiting}
use code_storm.Engine.Handling.Completion.{Completed, gather-Completed}
use code_storm.Engine.Handling.Fits.{IsWell}
use code_storm.Engine.Handling.Outcome.{Outcome, handle_event-Outcome}
use code_storm.Examples.RedisServer.{redis, redis_laws, after, after-view}
use code_storm.Examples.TextCodec.{codec, codec_laws}
use code_storm.Examples.Demo.{
  empty_server, demo, demo_laws, config, idle, waiting, from_merchant, from_bank, two_events,
  three_events, window_with, message, empty_keyspace,
}

no_windows-IsWell : IsWell demo_laws config []
unfolding Windows.get
no_windows-IsWell k w h = cc

handle_event-Outcome_example :
    Wp
      (see demo)
      (see demo idle)
      (handle_event demo config (message from_merchant))
      (λ _ τ. (now_ms : ℤ) × Outcome demo_laws config from_merchant now_ms (see demo idle) τ)
      (λ _. ⊥)
handle_event-Outcome_example =
    handle_event-Outcome demo_laws config (message from_merchant) (see demo idle) refl refl
      no_windows-IsWell

-- The state in which the merchant's event is claimed.
abbrev claimed : Seen
claimed = record (see demo idle) { view = set_px (dedup_event 1) "1" 600_000 empty_keyspace }

handle_event-claimed_example :
    Wp
      (see demo)
      claimed
      (handle_event demo config (message from_merchant))
      (λ _ τ. τ ≡ claimed)
      (λ _. ⊥)
handle_event-claimed_example =
    handle_event-claimed demo_laws config (message from_merchant) claimed "1" refl

handle_duplicate-Duplicated_example :
    Wp
      (see demo)
      (see demo waiting)
      (handle_duplicate demo config from_merchant 0)
      (λ _ τ. Duplicated demo_laws config from_merchant (see demo waiting) τ)
      (λ _. ⊥)
handle_duplicate-Duplicated_example =
    handle_duplicate-Duplicated demo_laws config from_merchant 0 (see demo waiting) refl

gather-Waiting_example :
    Wp
      (see demo)
      (see demo idle)
      (gather demo config from_merchant 0 (pos 1))
      (λ _ τ. Waiting demo_laws config from_merchant (pos 1) (see demo idle) τ)
      (λ _. ⊥)
unfolding Windows.get is_complete new
gather-Waiting_example =
    gather-Waiting demo_laws config from_merchant 0 (pos 1) (see demo idle) refl

gather-Completed_example :
    Wp
      (see demo)
      (see demo waiting)
      (gather demo config from_bank 0 (pos 1))
      (λ _ τ. Completed demo_laws config (window_with three_events) (see demo waiting) τ)
      (λ _. ⊥)
unfolding Windows.get is_complete
gather-Completed_example =
    gather-Completed demo_laws config from_bank 0 (pos 1) (see demo waiting) refl refl refl

finalize_window-Finalized_example :
    Wp
      (see demo)
      (see demo waiting)
      (finalize_window demo config (window_with three_events))
      (λ _ τ. Finalized demo_laws config (window_with three_events) (see demo waiting) τ)
      (λ _. ⊥)
finalize_window-Finalized_example =
    finalize_window-Finalized demo_laws config (window_with three_events) (see demo waiting) refl

claim_again_example :
    Ensures redis.view
      (λ again _. again ≡ leb 600_000 5)
      (λ _. ⊥)
      (try_claim_event redis 1 600_000 (after 5 (try_claim_event redis 1 600_000 empty_server).1))
unfolding try_claim_event ◌>>=◌ pure
claim_again_example =
    claim_again redis_laws 1 600_000 5 empty_server
      (after 5 (try_claim_event redis 1 600_000 empty_server).1) refl
      (after-view 5 (try_claim_event redis 1 600_000 empty_server).1)

load-save_example :
    Ensures redis.view
      (λ found _. found ≡ (if leb 30_000 9 then none else some (window_with two_events)))
      (λ _. ⊥)
      (load_window redis codec 7
        (after 9 (save_window redis codec (window_with two_events) empty_server).1))
unfolding save_window ◌>>=◌ lift codec
load-save_example =
    load-save redis_laws codec_laws (window_with two_events) 9 empty_server
      (after 9 (save_window redis codec (window_with two_events) empty_server).1) refl
      (after-view 9 (save_window redis codec (window_with two_events) empty_server).1)

record_event_processed-Metered_example :
    Wp redis.view empty_keyspace
      (record_event_processed redis codec "now" "bank" (pos 40) (pos 30))
      (λ _ w. Metered empty_keyspace w)
      (λ w. Metered empty_keyspace w)
record_event_processed-Metered_example =
    record_event_processed-Metered redis_laws codec "now" "bank" (pos 40) (pos 30) empty_keyspace
