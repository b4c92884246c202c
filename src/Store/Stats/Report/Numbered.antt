-- ===== src/Store/Stats/Report/Numbered.antt =====
-- What `get_matcher_stats` (matcher/src/store.rs) reports, by what Redis holds.
use code_storm.Store.Stats.Totals.{total, total-sort, length-sort}
use code_storm.Store.Stats.{Stats, sort}
use code_storm.Store.Stats.Percentiles.{calc_stats-IsOrdered}
use code_storm.Redis.{Redis, RedisLaws}
use code_storm.Prelude.{
  ◌≡◌, ◌⊎◌, refl, sym, inl, inr, String, some, List, true, arith, subst, length, ◌∙◌, ap,
}
use code_storm.Prelude.Int.{ℤ, pos, leb_ℤ, negsuc, wrap_i64}
use code_storm.Exec.{attempt}
use code_storm.Exec.Wp.{Wp, wp-command, wp-attempt, wp-bind, wp-weaken, wp-pure}
use code_storm.Redis.View.{
  Key, Keyspace, events_total, matches_success, matches_failed, latencies_total, latencies_logic,
}
use code_storm.Store.Stats.Numbers.{max_zero}
use code_storm.Store.Stats.Report.{
  MatcherStats, read_values, number, texts, reported, report, get_matcher_stats, Stats,
}

module _ {r : Redis} {F : Type 0} (laws : RedisLaws F r) where
  number-Wp :
      (k : Key) (v : Keyspace) {E : Keyspace → Type 0}
      → Wp r.view v (attempt (r.get_i64 k)) (λ a w. (w ≡ v) × (F ⊎ (number a ≡ v.counters k))) E
  number-Wp k v = wp-attempt _ (
      wp-command (laws.get_i64_law k) (λ a e. (refl, inr e)) (λ f _. (refl, missing f))
        (λ _ f _ _. (refl, missing f)))
    where
      missing : F ⊎ (v.counters k ≡ pos 0) → F ⊎ (pos 0 ≡ v.counters k)
      missing (inl f) = inl f
      missing (inr e) = inr (sym e)

  texts-Wp :
      (k : Key) (v : Keyspace) {E : Keyspace → Type 0}
      → Wp r.view v (attempt (r.lrange k)) (λ a w. (w ≡ v) × (F ⊎ (texts a ≡ v.lists k))) E
  texts-Wp k v = wp-attempt _ (
      wp-command (laws.lrange_law k) (λ a e. (refl, inr e)) (λ f _. (refl, inl f))
        (λ _ f _ _. (refl, inl f)))

max_zero-nonneg : (x : ℤ) → leb_ℤ (pos 0) (max_zero x) ≡ true
max_zero-nonneg (pos n) = ground arith
max_zero-nonneg (negsuc n) = refl

-- The total and the count of statistics are those of some values.
pub record IsSummary (vals : List ℤ) (stats : Stats) : Type 0 where
  pub total_is : stats.total_micros ≡ wrap_i64 (total vals)
  pub count_is : stats.count ≡ length vals

summary :
    {vals : List ℤ} (stats : Stats)
    → stats.total_micros ≡ wrap_i64 (total (sort vals))
    → stats.count ≡ length (sort vals)
    → IsSummary vals stats
summary {vals} stats t c = record {
  total_is = t ∙ ap wrap_i64 (total-sort vals);
  count_is = c ∙ length-sort vals;
}

known :
    {F : Type 0} {texts kept : List String} (stats : Stats)
    → IsSummary (read_values texts) stats
    → F ⊎ (texts ≡ kept)
    → F ⊎ IsSummary (read_values kept) stats
known stats h (inl f) = inl f
known stats h (inr e) = inr (subst (λ l. IsSummary (read_values l) stats) e h)

module _ (percent : ℤ → ℤ → ℤ) {r : Redis} {F : Type 0} (laws : RedisLaws F r) where
  -- What a report tells: no count of windows below 0, medians that are not above the 99th
  -- percentiles, and, unless a read has failed, the totals and counts of the latencies in Redis
  -- and the counters as they stand there.
  pub record IsReport (v : Keyspace) (stats : MatcherStats) : Type 0 where
    pub windows : leb_ℤ (pos 0) stats.active_windows ≡ true
    pub latency : leb_ℤ stats.latency.p50_micros stats.latency.p99_micros ≡ true
    pub logic : leb_ℤ stats.logic_latency.p50_micros stats.logic_latency.p99_micros ≡ true
    pub latencies : F ⊎ IsSummary (read_values (v.lists latencies_total)) stats.latency
    pub logics : F ⊎ IsSummary (read_values (v.lists latencies_logic)) stats.logic_latency
    pub events : F ⊎ (stats.events_processed ≡ v.counters events_total)
    pub successes : F ⊎ (stats.successful_matches ≡ v.counters matches_success)
    pub failures : F ⊎ (stats.failed_matches ≡ v.counters matches_failed)

  report-IsReport :
      (v : Keyspace) (total success failed : ℤ) (total_texts logic_texts : List String)
      → F ⊎ (total ≡ v.counters events_total)
      → F ⊎ (success ≡ v.counters matches_success)
      → F ⊎ (failed ≡ v.counters matches_failed)
      → F ⊎ (total_texts ≡ v.lists latencies_total)
      → F ⊎ (logic_texts ≡ v.lists latencies_logic)
      → (stats : MatcherStats) × (report percent total success failed total_texts logic_texts
          ≡ some stats)
        × IsReport v stats
  report-IsReport v total success failed total_texts logic_texts a b c d g =
      let (latency, e, le, lt, lc) = calc_stats-IsOrdered (read_values total_texts) in
      let (logic, f, lf, gt, gc) = calc_stats-IsOrdered (read_values logic_texts) in
      (
        reported percent total success failed latency logic,
        rw (e, f) refl,
        record {
          windows = max_zero-nonneg _;
          latency = le;
          logic = lf;
          latencies = known latency (summary latency lt lc) d;
          logics = known logic (summary logic gt gc) g;
          events = a;
          successes = b;
          failures = c;
        },
      )

  -- Whatever Redis holds and whatever fails, in a build where sums of i64 wrap,
  -- `get_matcher_stats` returns statistics without a panic and changes nothing; their number of
  -- windows is not below 0, each median is not above its 99th percentile, the total and the number
  -- of the values of each list of latencies are the wrapped sum and the number of those that can
  -- be read from that list in Redis, and the counts of events, matches and failures are the
  -- counters in Redis, each unless a service has failed.
  pub get_matcher_stats-IsReport :
      (v : Keyspace)
      → Wp r.view v
          (get_matcher_stats percent r)
          (λ o w. (w ≡ v) × (stats : MatcherStats) × (o ≡ some stats) × IsReport v stats)
          (λ _. ⊥)
  unfolding get_matcher_stats
  get_matcher_stats-IsReport v = wp-bind _ _ (
      wp-weaken (number-Wp laws events_total v)
        (λ total w (e, a). rw e (
          wp-bind _ _ (
            wp-weaken (number-Wp laws matches_success v)
              (λ success w (e, b). rw e (
                wp-bind _ _ (
                  wp-weaken (number-Wp laws matches_failed v)
                    (λ failed w (e, c). rw e (
                      wp-bind _ _ (
                        wp-weaken (texts-Wp laws latencies_total v)
                          (λ totals w (e, d). rw e (
                            wp-bind _ _ (
                              wp-weaken (texts-Wp laws latencies_logic v)
                                (λ logics w (e, g).
                                  let (stats, same, told) =
                                    report-IsReport v (number total) (number success)
                                      (number failed) (texts totals) (texts logics) a b c d g in
                                  wp-pure _ (e, stats, same, told))
                                (λ _ f. f))))
                          (λ _ f. f))))
                    (λ _ f. f))))
              (λ _ f. f))))
        (λ _ f. f))
