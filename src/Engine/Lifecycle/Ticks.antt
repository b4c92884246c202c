-- ===== src/Engine/Lifecycle/Ticks.antt =====
-- `process_expired_windows` (matcher/src/matcher.rs) is a sequence of deadlines in the abstract life.
pub mod Concluded
use code_storm.Exec.Ensures.{Ensures}
use code_storm.Engine.Parts.{State}
use code_storm.Prelude.{
  some, any, ◌==◌, false, true, All, Uuid, String, ◌≡◌, ◌⊎◌, refl, ap, ◌∙◌, inl, inr, List, [], ◌∷◌,
  map, is_some,
}
use code_storm.Prelude.Int.{ℤ}
use code_storm.Config.{Config}
use code_storm.Services.{Services, ServiceLaws}
use code_storm.Redis.{Redis, RedisLaws}
use code_storm.Redis.View.{in_range, Keyspace, deadlines, dedup_event, sources}
use code_storm.Codec.{Codec}
use code_storm.Exec.{for_each, ignore}
use code_storm.Exec.Wp.{Wp, wp-bind, wp-pure, wp-weaken, wp-both, wp-ignore, wp-any}
use code_storm.Exec.Keeps.{IsFrame, Keeps, bind-Keeps, pure-Keeps, command-Keeps}
use code_storm.Store.RedisStore.{pop_deadlines, pop_expired_deadlines}
use code_storm.Store.RedisStore.Deadlines.{pop_expired_deadlines-Popped}
use code_storm.Engine.Seen.{Seen, see, wp-redis, wp-reading, shown_ms, reading-Ensures}
use code_storm.Engine.Timers.{handle_timeout, process_expired_windows}
use code_storm.Engine.Timers.Timeout.{handle_timeout-TimedOut}
use code_storm.Engine.Timers.Tick.{TimedOut-windows, IsWell-without}
use code_storm.Engine.Handling.Fits.{IsWell}
use code_storm.Engine.Lifecycle.{Life, life}
use code_storm.Engine.Lifecycle.Branches.{Alike-eq}
use code_storm.Engine.Lifecycle.Expired.{handle_timeout-expires}
use code_storm.Engine.Lifecycle.Occasions.{deadline, lived}
use code_storm.Model.Source
use code_storm.Engine.Windows

-- Views with the same claims and registered sources.
record SameClaims (v w : Keyspace) : Type 0 where
  strings : w.strings ≡ v.strings
  sets : w.sets ≡ v.sets

claims-IsFrame : IsFrame SameClaims
claims-IsFrame = record {
  stay = λ v. record { strings = refl; sets = refl };
  onward = λ a b. record { strings = b.strings ∙ a.strings; sets = b.sets ∙ a.sets };
}

module _ {r : Redis} {F : Type 0} (laws : RedisLaws F r) (c : Codec) where
  pop_deadlines-Keeps :
      (members : List String) → Keeps r.view SameClaims (pop_deadlines r c members)
  unfolding pop_deadlines
  pop_deadlines-Keeps [] = pure-Keeps claims-IsFrame []
  pop_deadlines-Keeps (m ∷ members) =
      bind-Keeps claims-IsFrame _ _
        (command-Keeps claims-IsFrame (laws.zrem_text_law deadlines m)
          (λ _ v. record { strings = refl; sets = refl }))
        (λ _.
          bind-Keeps claims-IsFrame _ _ (pop_deadlines-Keeps members)
            (λ _. pure-Keeps claims-IsFrame _))

  pop_expired_deadlines-Keeps :
      (now_ms : ℤ) → Keeps r.view SameClaims (pop_expired_deadlines r c now_ms)
  unfolding pop_expired_deadlines
  pop_expired_deadlines-Keeps now_ms =
      bind-Keeps claims-IsFrame _ _
        (command-Keeps claims-IsFrame (laws.zrangebyscore_text_law deadlines now_ms)
          (λ _ v. record { strings = refl; sets = refl }))
        (λ members. pop_deadlines-Keeps members)

claims-life :
    (σ : Seen) (v : Keyspace) → SameClaims σ.view v → life (record σ { view = v }) ≡ life σ
claims-life σ v h = Alike-eq _ _ (record {
  claimed = λ id. ap (λ z. is_some (z (dedup_event id))) h.strings;
  registered = λ tx s. ap (λ z. z (sources tx) (Source.to_string s)) h.sets;
  pending = λ tx. refl;
  status = λ tx. refl;
})

module _ {sv : Services} {F : Type 0} (laws : ServiceLaws F sv) (cfg : Config) where
  -- The deadlines of some transactions, one after another.
  abbrev pub closed : List Uuid → Life → Life
  closed ids l = lived cfg.expected_sources_count (map (λ tx. deadline tx) ids) l

  timeouts-lived :
      (ids : List Uuid) (σ : Seen)
      → IsWell laws cfg σ.windows
      → Wp
          (see sv)
          σ
          (for_each (λ tx. ignore (handle_timeout sv cfg tx)) ids)
          (λ _ τ. F ⊎ (life τ ≡ closed ids (life σ)))
          (λ _. F)
  unfolding for_each
  timeouts-lived [] σ well = wp-pure tt (inr refl)
  timeouts-lived (tx ∷ ids) σ well = wp-bind _ _ (
      wp-ignore _ (
        wp-weaken
          (wp-both (handle_timeout-expires laws cfg tx σ well)
            (handle_timeout-TimedOut laws cfg tx σ well))
          (λ _ ρ (e, t).
            let without =
              TimedOut-windows laws cfg tx (Windows.get tx σ.windows) σ ρ (λ p h. (well tx p h).0)
                t in
            wp-weaken
              (timeouts-lived ids ρ (IsWell-without laws cfg tx σ.windows ρ.windows without well))
              (λ _ τ. elim [ inl f ↦ inl f | inr rest ↦ inr (rest ∙ ap (closed ids) e) ])
              (λ _ f. f))
          (λ ρ (f, _). wp-any _ (λ _ _. inl f) (λ _. f))))

  -- A list has the transactions whose deadline is due by a time, and no member that is not.
  abbrev pub AreDue : ℤ → Keyspace → List Uuid → Type 0
  AreDue now_ms v ids =
      ((tx : Uuid)
        → (in_range now_ms (v.text_zsets deadlines (sv.codec.uuid_to_string tx)) ≡ false)
          ⊎ (any (λ id. id == tx) ids ≡ true))
      × All
          (λ id.
            (m : String) × (sv.codec.parse_uuid m ≡ some id)
            × (in_range now_ms (v.text_zsets deadlines m) ≡ true))
          ids

  -- The state is seen as the abstract life after the deadlines that are due.
  abbrev pub Expired : State sv → Seen → Type 0
  Expired s τ =
      (ids : List Uuid) × AreDue (shown_ms sv s) (see sv s).view ids
      × (life τ ≡ lived cfg.expected_sources_count (map (λ tx. deadline tx) ids) (life (see sv s)))

  -- Where every window in memory stands under its own transaction with events that fit the
  -- transactions, after `process_expired_windows` a service has failed, or the state is seen as
  -- the abstract life after the deadlines of some transactions, one after another; among them is
  -- every one whose deadline is due at the time that the clock shows when the tick begins, and
  -- each of them was read from a member that is due then.
  pub process_expired_windows-lived :
      (s : State sv)
      → IsWell laws cfg s.windows
      → Ensures (see sv) (λ _ τ. F ⊎ Expired s τ) (λ _. F) (process_expired_windows sv cfg s)
  unfolding process_expired_windows
  process_expired_windows-lived s well =
      let σ = see sv s in
      let now_ms = shown_ms sv s in
      reading-Ensures sv {Q = λ _ τ. F ⊎ Expired s τ} _ _ s (
        wp-bind _ _ (
          wp-redis sv (
            wp-weaken
              (wp-both (pop_expired_deadlines-Popped laws.redis_laws laws.codec_laws now_ms σ.view)
                (pop_expired_deadlines-Keeps laws.redis_laws sv.codec now_ms σ.view))
              (λ ids v (popped, same).
                wp-weaken (timeouts-lived ids (record σ { view = v }) well)
                  (λ _ τ. elim [
                    | inl f ↦ inl f
                    | inr e ↦ inr (
                      ids,
                      (popped.complete, popped.due),
                      e ∙ ap (closed ids) (claims-life σ v same),
                    )
                  ])
                  (λ _ f. f))
              (λ _ (f, _). f))))
