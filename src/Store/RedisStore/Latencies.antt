-- ===== src/Store/RedisStore/Latencies.antt =====
-- The latencies that `record_event_processed` (matcher/src/store.rs) stores, as `get_matcher_stats`
-- reads them.
use code_storm.Prelude.{List, ◌∷◌, String, take, ◌≡◌, ap}
use code_storm.Prelude.Int.{ℤ, IsI64}
use code_storm.Codec.{Codec, CodecLaws}
use code_storm.Exec.Wp.{Wp, wp-bind, wp-command}
use code_storm.Exec.{Exec, ◌>>◌}
use code_storm.Redis.{Redis, RedisLaws, Command}
use code_storm.Redis.View.{Keyspace, latencies_total, latencies_logic}
use code_storm.Store.RedisStore.{record_event_processed}
use code_storm.Store.Stats.Report.{read_values, push_parsed}

-- The new latencies stand first, before the latest 999 of the old ones.
pub record AreRecorded (total logic : ℤ) (v w : Keyspace) : Type 0 where
  pub totals :
      read_values (w.lists latencies_total)
      ≡ total ∷ read_values (take 999 (v.lists latencies_total))
  pub logics :
      read_values (w.lists latencies_logic)
      ≡ logic ∷ read_values (take 999 (v.lists latencies_logic))

module _ {r : Redis} {F : Type 0} (laws : RedisLaws F r) {c : Codec}
    (codec_laws : CodecLaws c) where
  then-Wp :
      {A B : Type 0} {P : Keyspace → A → Type 0} {eff : Keyspace → Keyspace} {m : Exec r.Server A}
      {n : Exec r.Server B} {v : Keyspace} {Q : B → Keyspace → Type 0}
      → Command r F P eff m
      → Wp r.view (eff v) n Q (λ _. F)
      → Wp r.view v (m >> n) Q (λ _. F)
  then-Wp law h = wp-bind _ _ (wp-command law (λ _ _. h) (λ f. f) (λ _ f _. f))

  read_values-new :
      (x : ℤ) (texts : List String)
      → IsI64 x
      → read_values (c.i64_to_string x ∷ texts) ≡ x ∷ read_values texts
  unfolding read_values
  read_values-new x texts h =
      ap (λ o. push_parsed o (read_values texts)) (codec_laws.i64_round_trip x h)

  -- Where the latencies of an event are within 64 bits, after recording it, unless Redis fails,
  -- the values that the statistics read of each list of latencies are the new one and, after it,
  -- those of the latest 999 texts that were there.
  pub record_event_processed-AreRecorded :
      (now source : String) (total logic : ℤ) (v : Keyspace)
      → IsI64 total
      → IsI64 logic
      → Wp r.view v
          (record_event_processed r c now source total logic)
          (λ _ w. AreRecorded total logic v w)
          (λ _. F)
  unfolding record_event_processed
  record_event_processed-AreRecorded now source total logic v ht hl = then-Wp (laws.incr_law _) (
      then-Wp (laws.setex_law _ _ _) (
        then-Wp (laws.incr_law _) (
          then-Wp (laws.lpush_law _ _) (
            then-Wp (laws.ltrim_law _ 999) (
              then-Wp (laws.lpush_law _ _) (
                then-Wp (laws.ltrim_law _ 999) (
                  wp-command (laws.expire_law _ _)
                    (λ _ _. record {
                      totals = read_values-new total _ ht;
                      logics = read_values-new logic _ hl;
                    })
                    (λ f. f) (λ _ f _. f))))))))
