-- ===== src/Store/Stats/Report.antt =====
-- matcher/src/store.rs: `get_matcher_stats`; `percent a b` is
-- `(a as f64 / b as f64 * 100.0) as i32`.
pub mod Numbered
use mathlib.Core.Option
use code_storm.Prelude.{
  ◌≡◌, ◌⊎◌, refl, sym, inl, inr, String, Option, none, some, List, [], ◌∷◌, and_then, if◌then◌else◌,
}
use code_storm.Prelude.Int.{ℤ, pos, add_i64, sub_i64, ltb_ℤ}
use code_storm.Error.{Result, ok, err}
use code_storm.Exec.{Exec, pure, attempt, ◌>>=◌}
use code_storm.Exec.Wp.{Wp, wp-command, wp-attempt}
use code_storm.Redis.{Redis, RedisLaws}
use code_storm.Redis.View.{
  Key, Keyspace, events_total, matches_success, matches_failed, latencies_total, latencies_logic,
}
use code_storm.Store.Stats.{Stats, sort, calc_stats}
use code_storm.Store.Stats.Numbers.{parse_i64, div_i64, max_zero}

-- `filter_map(|s| s.parse::<i64>().ok())`
abbrev pub push_parsed : Option ℤ → List ℤ → List ℤ
push_parsed none vals = vals
push_parsed (some x) vals = x ∷ vals

unfoldable pub read_values : List String → List ℤ
read_values [] = []
read_values (s ∷ texts) = push_parsed (parse_i64 s) (read_values texts)

pub record MatcherStats : Type 0 where
  pub events_processed : ℤ
  pub throughput_eps : ℤ
  pub successful_matches : ℤ
  pub failed_matches : ℤ
  pub match_success_rate : ℤ
  pub active_windows : ℤ
  pub latency : Stats
  pub logic_latency : Stats

-- `unwrap_or(0)` and `unwrap_or_default()`
abbrev pub number : Result ℤ → ℤ
number (ok x) = x
number (err e) = pos 0

abbrev pub texts : Result (List String) → List String
texts (ok l) = l
texts (err e) = []

module _ (percent : ℤ → ℤ → ℤ) where
  abbrev pub success_rate : ℤ → ℤ → ℤ
  success_rate success failed =
      let all = add_i64 success failed in if ltb_ℤ (pos 0) all then percent success all else pos 0

  abbrev pub reported : ℤ → ℤ → ℤ → Stats → Stats → MatcherStats
  reported total success failed latency logic = record {
    events_processed = total;
    throughput_eps = div_i64 total 60;
    successful_matches = success;
    failed_matches = failed;
    match_success_rate = success_rate success failed;
    active_windows = max_zero (sub_i64 (sub_i64 total success) failed);
    latency = latency;
    logic_latency = logic;
  }

  -- `none` is a panic in `calc_stats`.
  abbrev pub report : ℤ → ℤ → ℤ → List String → List String → Option MatcherStats
  report total success failed total_texts logic_texts =
      and_then (calc_stats (sort (read_values total_texts))) (λ latency.
        Option.map (λ logic. reported total success failed latency logic)
          (calc_stats (sort (read_values logic_texts))))

  unfoldable pub get_matcher_stats : (r : Redis) → Exec r.Server (Option MatcherStats)
  get_matcher_stats r = do
    total_events ← attempt (r.get_i64 events_total)
    success_matches ← attempt (r.get_i64 matches_success)
    failed_matches ← attempt (r.get_i64 matches_failed)
    total_latencies ← attempt (r.lrange latencies_total)
    logic_latencies ← attempt (r.lrange latencies_logic)
    pure (
        report (number total_events) (number success_matches) (number failed_matches)
          (texts total_latencies) (texts logic_latencies))
