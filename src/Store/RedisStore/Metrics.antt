-- ===== src/Store/RedisStore/Metrics.antt =====
-- `record_event_processed` (matcher/src/store.rs): what the metrics have to do with the rest.
use code_storm.Prelude.{Option, List, ℕ, Uuid, String, ◌≡◌, refl, ◌∙◌}
use code_storm.Prelude.Int.{ℤ}
use code_storm.Codec.{Codec}
use code_storm.Exec.{Exec, ◌>>◌}
use code_storm.Exec.Wp.{Wp, wp-bind, wp-command, wp-weaken}
use code_storm.Redis.{Redis, RedisLaws, Command}
use code_storm.Redis.View.{Key, Keyspace, window, dedup_event, last_seen, set_px}
use code_storm.Store.RedisStore.{record_event_processed}

-- Two views that differ in metrics alone.
pub record Metered (v w : Keyspace) : Type 0 where
  pub windows : (k : Uuid) → w.strings (window k) ≡ v.strings (window k)
  pub claims : (k : Uuid) → w.strings (dedup_event k) ≡ v.strings (dedup_event k)
  pub sets : w.sets ≡ v.sets
  pub text_zsets : w.text_zsets ≡ v.text_zsets
  pub int_zsets : w.int_zsets ≡ v.int_zsets
  pub published : w.published ≡ v.published
  pub acknowledged : w.acknowledged ≡ v.acknowledged

Metered-trans : {u v w : Keyspace} → Metered u v → Metered v w → Metered u w
Metered-trans a b = record {
  windows = λ k. b.windows k ∙ a.windows k;
  claims = λ k. b.claims k ∙ a.claims k;
  sets = b.sets ∙ a.sets;
  text_zsets = b.text_zsets ∙ a.text_zsets;
  int_zsets = b.int_zsets ∙ a.int_zsets;
  published = b.published ∙ a.published;
  acknowledged = b.acknowledged ∙ a.acknowledged;
}

counted :
    (w : Keyspace) (l : Key → List String) (c : Key → ℤ) (e : Key → Option ℕ)
    → Metered w (record w { lists = l; counters = c; expires = e })
counted w l c e = record {
  windows = λ k. refl;
  claims = λ k. refl;
  sets = refl;
  text_zsets = refl;
  int_zsets = refl;
  published = refl;
  acknowledged = refl;
}

noted :
    (source now : String) (ttl : ℕ) (w : Keyspace) → Metered w (set_px (last_seen source) now ttl w)
noted source now ttl w = record {
  windows = λ k. refl;
  claims = λ k. refl;
  sets = refl;
  text_zsets = refl;
  int_zsets = refl;
  published = refl;
  acknowledged = refl;
}

module _ {r : Redis} {F : Type 0} (laws : RedisLaws F r) where
  -- Whether the step ends well or in an error, it has touched metrics alone.
  abbrev Meters : {A : Type 0} → Keyspace → Exec r.Server A → Type 0
  Meters v m = Wp r.view v m (λ _ w. Metered v w) (λ w. Metered v w)

  Meters-Command :
      {A : Type 0} {P : Keyspace → A → Type 0} {eff : Keyspace → Keyspace} {m : Exec r.Server A}
      → Command r F P eff m
      → ((w : Keyspace) → Metered w (eff w))
      → (v : Keyspace) → Meters v m
  Meters-Command law h v = wp-command law (λ _ _. h v) (λ _. counted v _ _ _) (λ _ _ _. h v)

  Meters-then :
      {A B : Type 0} {P : Keyspace → A → Type 0} {eff : Keyspace → Keyspace} {m : Exec r.Server A}
      {n : Exec r.Server B}
      → Command r F P eff m
      → ((w : Keyspace) → Metered w (eff w))
      → ((v : Keyspace) → Meters v n)
      → (v : Keyspace) → Meters v (m >> n)
  Meters-then law h rest v = wp-bind _ _ (
      wp-command law
        (λ _ _. wp-weaken (rest _) (λ _ w k. Metered-trans (h v) k) (λ w k. Metered-trans (h v) k))
        (λ _. counted v _ _ _) (λ _ _ _. h v))

  module _ (c : Codec) (now source : String) (total_micros logic_micros : ℤ) where
    -- Recording an event, completely or up to a failure, leaves the windows, the claims, the sets,
    -- the sorted sets and the published events as they are.
    pub record_event_processed-Metered :
        (v : Keyspace)
        → Wp r.view v
            (record_event_processed r c now source total_micros logic_micros)
            (λ _ w. Metered v w)
            (λ w. Metered v w)
    unfolding record_event_processed
    record_event_processed-Metered =
        Meters-then (laws.incr_law _) (λ w. counted w _ _ _)
          (Meters-then (laws.setex_law _ _ _) (noted source now _) (
            Meters-then (laws.incr_law _) (λ w. counted w _ _ _)
              (Meters-then (laws.lpush_law _ _) (λ w. counted w _ _ _)
                (Meters-then (laws.ltrim_law _ 999) (λ w. counted w _ _ _)
                  (Meters-then (laws.lpush_law _ _) (λ w. counted w _ _ _)
                    (Meters-then (laws.ltrim_law _ 999) (λ w. counted w _ _ _)
                      (Meters-Command (laws.expire_law _ _) (λ w. counted w _ _ _))))))))
