-- ===== src/Store/RedisStore/Claims.antt =====
-- `try_claim_event` and `try_register_source`: who comes first.
use code_storm.Prelude.{
  Uuid, String, ◌≡◌, refl, ℕ, some, ◌+◌, arith, Bool, true, false, is_some, not, leb, Option, subst,
}
use code_storm.Prelude.Int.{ℤ, pos, ◌==ℤ◌}
use code_storm.Error.{ok, Result, err}
use code_storm.Exec.Wp.{Wp, wp-bind, wp-command, wp-pure}
use code_storm.Exec.Ensures.{Ensures}
use code_storm.Model.Source
use code_storm.Model.Source.{Source}
use code_storm.Redis.{Redis, RedisLaws}
use code_storm.Redis.View.{
  Keyspace, sources, dedup_event, set_nx_px, elapse, sadd, expire, added, set_nx_reply,
}
use code_storm.Store.RedisStore.{try_claim_event, try_register_source}

module _ {r : Redis} {F : Type 0} (laws : RedisLaws F r) where
  pub claim-Wp :
      (id : Uuid) (ttl : ℕ) (v : Keyspace) {Q : Bool → Keyspace → Type 0}
      → Q (not (is_some (v.strings (dedup_event id)))) (set_nx_px (dedup_event id) "1" ttl v)
      → Wp r.view v (try_claim_event r id ttl) Q (λ _. F)
  unfolding try_claim_event
  claim-Wp id ttl v {Q} q = wp-bind _ _ (
      wp-command (laws.set_nx_px_law (dedup_event id) "1" ttl)
        (λ a e. wp-pure _ (subst (λ b. Q b (set_nx_px (dedup_event id) "1" ttl v)) (claimed a e) q))
        (λ f. f) (λ _ f _. f))
    where
      claimed :
          (a : Option String)
          → a ≡ set_nx_reply (dedup_event id) v
          → not (is_some (v.strings (dedup_event id))) ≡ is_some a
      claimed a e = ground arith

  pub register-Wp :
      (tx : Uuid) (s : Source) (v : Keyspace) {Q : Bool → Keyspace → Type 0}
      → Q
          (not (v.sets (sources tx) (Source.to_string s)))
          (expire (sources tx) 60 (sadd (sources tx) (Source.to_string s) v))
      → Wp r.view v (try_register_source r tx s) Q (λ _. F)
  unfolding try_register_source
  register-Wp tx s v {Q} q = wp-bind _ _ (
      wp-command (laws.sadd_law (sources tx) (Source.to_string s))
        (λ a e. wp-bind _ _ (
          wp-command (laws.expire_law (sources tx) 60)
            (λ _ _. wp-pure _ (
              subst (λ b. Q b (expire (sources tx) 60 (sadd (sources tx) (Source.to_string s) v)))
                (first a e) q))
            (λ f. f) (λ _ f _. f)))
        (λ f. f) (λ _ f _. f))
    where
      first :
          (a : ℤ)
          → a ≡ added (sources tx) (Source.to_string s) v
          → not (v.sets (sources tx) (Source.to_string s)) ≡ (a ==ℤ pos 1)
      first a e = ground arith

  -- A claim that holds.
  abbrev IsClaimed : Uuid → ℕ → ℕ → Bool → Keyspace → Type 0
  IsClaimed id ttl now claimed w =
      claimed ≡ true
      → (w.strings (dedup_event id) ≡ some "1")
        × (w.expires (dedup_event id) ≡ some (now + ttl))
        × (w.clock_ms ≡ now)

  first_claim :
      (id : Uuid) (ttl : ℕ) (v : Keyspace)
      → Wp r.view v (try_claim_event r id ttl) (IsClaimed id ttl v.clock_ms) (λ _. F)
  first_claim id ttl v = claim-Wp id ttl v (λ e. ground arith)

  second_claim :
      (id : Uuid) (ttl d : ℕ) (v w : Keyspace)
      → IsClaimed id ttl v.clock_ms true w
      → Wp r.view (elapse d w) (try_claim_event r id ttl) (λ again _. again ≡ leb ttl d) (λ _. F)
  second_claim id ttl d v w h =
      let (held, until, now) = h refl in
      claim-Wp id ttl (elapse d w) (unfold elapse in ground arith)

  -- Once an event is claimed, a further claim on what Redis holds after some time, unless Redis
  -- fails, succeeds exactly when that time has reached the deduplication window.
  pub claim_again :
      (id : Uuid) (ttl d : ℕ) (s s' : r.Server)
      → (try_claim_event r id ttl s).0 ≡ ok true
      → r.view s' ≡ elapse d (r.view (try_claim_event r id ttl s).1)
      → Ensures r.view (λ again _. again ≡ leb ttl d) (λ _. F) (try_claim_event r id ttl s')
  claim_again id ttl d s s' first later =
      (second_claim id ttl d (r.view s) (r.view (try_claim_event r id ttl s).1) (
          claimed (try_claim_event r id ttl s) first
            ((first_claim id ttl (r.view s)).at s refl))).at
        s' later
    where
      claimed :
          (x : Result Bool × r.Server)
          → x.0 ≡ ok true
          → Ensures r.view (IsClaimed id ttl (r.view s).clock_ms) (λ _. F) x
          → IsClaimed id ttl (r.view s).clock_ms true (r.view x.1)
      claimed (ok true, t) e h = h
      claimed (ok false, t) e h = cc
      claimed (err x, t) e h = cc
