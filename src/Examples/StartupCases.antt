-- ===== src/Examples/StartupCases.antt =====
-- The theorems on the start, the statistics and the health endpoint, on the services that never fail.
use code_storm.Exec.Ensures.{Ensures}
use code_storm.Prelude.Int.{pos}
use code_storm.Error.{ok}
use code_storm.Prelude.{
  refl, Bool-cases, Uuid, ◌==◌, ◌≡◌, ◌<◌, ◌≤◌, inl, inr, some, none, List, [], concat, arith, ℕ,
  String, sym, ◌∙◌, length,
}
use code_storm.Exec.Wp.{Wp}
use code_storm.Redis.View.{Keyspace, Key, window}
use code_storm.Model.Partial.{PartialTransaction}
use code_storm.Store.RedisStore.{load_all_windows, ensure_consumer_group, record_event_processed}
use code_storm.Store.RedisStore.Scan.{load_all_windows-Loaded}
use code_storm.Store.RedisStore.Stored.{stored_window, Loaded}
use code_storm.Store.RedisStore.Group.{ensure_consumer_group-HasGroup, Follows}
use code_storm.Store.Stats.Report.{MatcherStats, get_matcher_stats}
use code_storm.Store.Stats.Report.Numbered.{IsReport, get_matcher_stats-IsReport}
use code_storm.Runs.{no_windows-IsWell}
use code_storm.Health.{serve}
use code_storm.Health.Served.{serve-IsAnswer, IsServed}
use code_storm.Store.RedisStore.Latencies.{AreRecorded, record_event_processed-AreRecorded}
use code_storm.Examples.TextCodec.{codec_laws, codec, window_text, read_window_text}
use code_storm.Engine.Seen.{Seen, see}
use code_storm.Engine.Handling.Fits.{AllFit}
use code_storm.Engine.Startup.{restore_from_redis}
use code_storm.Engine.Startup.Restored.{IsSavedWell, Restored, restore_from_redis-Restored}
use code_storm.Examples.RedisServer.{Server, redis, redis_laws}
use code_storm.Examples.TimerCases.{from_some, two_events-AllFit}
use code_storm.Examples.Demo.{
  demo, demo_laws, config, idle, waiting, empty_keyspace, window_with, two_events, empty_server,
}
use code_storm.Redis.View

-- One window is saved.
abbrev saved_view : Keyspace
saved_view = View.set_px (window 7) (window_text (window_with two_events)) 30_000 empty_keyspace

some_page : (v : Keyspace) → 0 < length (redis_laws.scan_pages v 0)
unfolding redis_laws
some_page v = omega arith

one_page : (v : Keyspace) → length (redis_laws.scan_pages v 0) ≤ 1
unfolding redis_laws
one_page v = omega arith

saved_one :
    (t : String) (p q : PartialTransaction) (tx : Uuid)
    → codec.window_from_json t ≡ ok p
    → stored_window codec (View.set_px (window 7) t 30_000 empty_keyspace) tx ≡ some q
    → (7 ≡ tx) × (some p ≡ some q)
saved_one t p q tx e h = elim (Bool-cases (7 == tx)) [
  | inl same ↦
      let first : stored_window codec (View.set_px (window 7) t 30_000 empty_keyspace) tx ≡ some p =
        rw (same, e) refl in
      (ground arith, sym first ∙ h)
  | inr other ↦
      let first : stored_window codec (View.set_px (window 7) t 30_000 empty_keyspace) tx ≡ none =
        rw other refl in
      absurd (cc (sym first ∙ h))
]

saved_view-IsSavedWell : IsSavedWell demo_laws config saved_view
saved_view-IsSavedWell tx p h =
    let (own, there) =
      saved_one (window_text (window_with two_events)) (window_with two_events) p tx
        (read_window_text (window_with two_events)) h in
    from_some (λ q. (q.transaction_id ≡ tx) × AllFit demo_laws config q.events)
      (window_with two_events) p there (own, two_events-AllFit)

load_all_windows-Loaded_example :
    Wp redis.view saved_view
      (load_all_windows redis codec 1)
      (λ o w.
        (w ≡ saved_view)
        × ((windows : List PartialTransaction) × (o ≡ some windows)
            × Loaded codec ⊥ saved_view (concat (redis_laws.scan_pages saved_view 0)) windows))
      (λ _. ⊥)
load_all_windows-Loaded_example =
    load_all_windows-Loaded redis_laws codec 1 saved_view (some_page saved_view)
      (one_page saved_view)

-- The state before the restoration.
abbrev starting : Seen
starting = record { windows = []; view = saved_view; tables = (see demo idle).tables }

restore_from_redis-Restored_example :
    Wp
      (see demo)
      starting
      (restore_from_redis demo 1)
      (λ o τ.
        ((count : ℕ) × (o ≡ some count))
        × Restored demo_laws config (concat (redis_laws.scan_pages saved_view 0)) starting τ)
      (λ _. ⊥)
unfolding demo_laws
restore_from_redis-Restored_example =
    restore_from_redis-Restored demo_laws config 1 starting (some_page saved_view)
      (one_page saved_view) saved_view-IsSavedWell (no_windows-IsWell demo_laws config [] refl)

-- The group is created a second time.
abbrev grouped_server : Server
grouped_server = (redis.xgroup_create "events" "matcher" empty_server).1

ensure_consumer_group-HasGroup_example :
    Follows redis_laws "events" "matcher"
      (redis.view grouped_server)
      (redis.xgroup_create "events" "matcher" grouped_server).0
      (redis.view (ensure_consumer_group redis "events" "matcher" grouped_server).1)
      (ensure_consumer_group redis "events" "matcher" grouped_server).0
ensure_consumer_group-HasGroup_example =
    ensure_consumer_group-HasGroup redis_laws "events" "matcher" grouped_server

get_matcher_stats-IsReport_example :
    Wp redis.view empty_keyspace
      (get_matcher_stats (λ a b. a) redis)
      (λ o w.
        (w ≡ empty_keyspace)
        × (stats : MatcherStats) × (o ≡ some stats)
        × IsReport (λ a b. a) redis_laws empty_keyspace stats)
      (λ _. ⊥)
get_matcher_stats-IsReport_example = get_matcher_stats-IsReport (λ a b. a) redis_laws empty_keyspace

-- `GET /readyz HTTP/1.1`
serve-IsAnswer_example :
    Ensures
      (see demo)
      (IsServed demo_laws waiting "/readyz")
      (λ _. ⊥)
      (serve demo (some "GET /readyz HTTP/1.1") waiting)
serve-IsAnswer_example =
    serve-IsAnswer demo_laws "G" "/" "ET" "readyz" "HTTP/1.1" (refl, (refl, (refl, tt)))
      (refl, (refl, (refl, (refl, (refl, (refl, (refl, tt))))))) waiting

record_event_processed-AreRecorded_example :
    Wp redis.view empty_keyspace
      (record_event_processed redis codec "2026-01-01T00:00:00Z" "bank" (pos 30) (pos 20))
      (λ _ w. AreRecorded (pos 30) (pos 20) empty_keyspace w)
      (λ _. ⊥)
record_event_processed-AreRecorded_example =
    record_event_processed-AreRecorded redis_laws codec_laws "2026-01-01T00:00:00Z" "bank" (pos 30)
      (pos 20) empty_keyspace (omega arith) (omega arith)
