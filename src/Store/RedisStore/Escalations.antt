-- ===== src/Store/RedisStore/Escalations.antt =====
-- `pop_expired_escalations` (matcher/src/store.rs): what leaves the sorted set, and what is returned.
use code_storm.Prelude.{
  All-weaken, ◌≡◌, ◌⊎◌, refl, ◌∙◌, sym, ap, Bool, true, false, Bool-cases, inl, inr, Option, none,
  List, [], ◌∷◌, All, any, arith, if◌then◌else◌, is_some,
}
use code_storm.Prelude.Int.{ℤ, pos, ◌==ℤ◌, ==ℤ_iff}
use code_storm.Exec.Wp.{Wp, wp-bind, wp-command, wp-pure, wp-weaken}
use code_storm.Redis.{Redis, RedisLaws}
use code_storm.Redis.View.{Keyspace, incident_escalations, occurs, in_range, zrem_int, removed_int}
use code_storm.Store.RedisStore.{pop_escalations, pop_expired_escalations}
use code_storm.Store.RedisStore.Deadlines.{in_range-is_some}

-- The incidents that wait for their escalation.
abbrev scores : Keyspace → ℤ → Option ℤ
scores v = v.int_zsets incident_escalations

-- A list of members is removed, and those that were there are returned.
record Removed (members : List ℤ) (v : Keyspace) (ids : List ℤ) (w : Keyspace) : Type 0 where
  gone : (m : ℤ) → scores w m ≡ (if occurs ◌==ℤ◌ m members then none else scores v m)
  parsed : All (λ id. occurs ◌==ℤ◌ id members ≡ true) ids
  found :
      (m : ℤ)
      → occurs ◌==ℤ◌ m members ≡ true
      → is_some (scores v m) ≡ true
      → any (λ id. id ==ℤ m) ids ≡ true

-- The due incidents are popped: none of them is left, those not due stay, and each one returned was
-- due; one that is not returned was not due.
pub record Popped (now_ms : ℤ) (v : Keyspace) (ids : List ℤ) (w : Keyspace) : Type 0 where
  pub left : (m : ℤ) → scores w m ≡ (if in_range now_ms (scores v m) then none else scores v m)
  pub due : All (λ id. in_range now_ms (scores v id) ≡ true) ids
  pub complete :
      (id : ℤ) → (in_range now_ms (scores v id) ≡ false) ⊎ (any (λ k. k ==ℤ id) ids ≡ true)

module _ {r : Redis} {F : Type 0} (laws : RedisLaws F r) where
  abbrev with_member : Bool → ℤ → List ℤ → List ℤ
  with_member there id ids = if there then id ∷ ids else ids

  All-with_member :
      (P : ℤ → Type 0) (there : Bool) (id : ℤ) (ids : List ℤ)
      → P id
      → All P ids
      → All P (with_member there id ids)
  All-with_member P false id ids p h = h
  All-with_member P true id ids p h = (p, h)

  was_there :
      (v : Keyspace) (m : ℤ)
      → (removed_int incident_escalations m v ==ℤ pos 1) ≡ is_some (scores v m)
  was_there v m = ground arith

  Removed-step :
      (m : ℤ) (ms : List ℤ) (v w : Keyspace) (ids : List ℤ) (there : Bool)
      → there ≡ is_some (scores v m)
      → Removed ms (zrem_int incident_escalations m v) ids w
      → Removed (m ∷ ms) v (with_member there m ids) w
  Removed-step m ms v w ids there e h = record {
    gone = λ n. ground (arith, h.gone n);
    parsed =
        All-with_member (λ id. occurs ◌==ℤ◌ id (m ∷ ms) ≡ true) there m ids
          (ground (arith, ==ℤ_iff m m)) (All-weaken ids (λ id o. ground arith) h.parsed);
    found = λ n o t. elim (Bool-cases (m ==ℤ n)) [
      | inl same ↦ let same' : m ≡ n = (==ℤ_iff m n).0 same in ground arith
      | inr other ↦ let rest = h.found n (ground arith) (ground arith) in ground arith
    ];
  }

  pop_escalations-Removed :
      (members : List ℤ) (v : Keyspace)
      → Wp r.view v (pop_escalations r members) (λ ids w. Removed members v ids w) (λ _. F)
  unfolding pop_escalations
  pop_escalations-Removed [] v =
      wp-pure [] (record { gone = λ m. refl; parsed = tt; found = λ m o t. cc })
  pop_escalations-Removed (m ∷ ms) v = wp-bind _ _ (
      wp-command (laws.zrem_int_law incident_escalations m)
        (λ removed e. wp-bind _ _ (
          wp-weaken (pop_escalations-Removed ms (zrem_int incident_escalations m v))
            (λ ids w h. wp-pure _ (
              Removed-step m ms v w ids (removed ==ℤ pos 1)
                (ap (λ x. x ==ℤ pos 1) e ∙ was_there v m) h))
            (λ _ f. f)))
        (λ f. f) (λ _ f _. f))

  -- Popping the escalations up to a time, unless Redis fails, takes exactly the due incidents out
  -- of the sorted set, returns only due ones, and returns every one that is due.
  pub pop_expired_escalations-Popped :
      (now_ms : ℤ) (v : Keyspace)
      → Wp r.view v (pop_expired_escalations r now_ms) (λ ids w. Popped now_ms v ids w) (λ _. F)
  unfolding pop_expired_escalations
  pop_expired_escalations-Popped now_ms v = wp-bind _ _ (
      wp-command (laws.zrangebyscore_int_law incident_escalations now_ms)
        (λ members range.
          wp-weaken (pop_escalations-Removed members v)
            (λ ids w h. record {
              left = λ m. ground (arith, h.gone m, range.exact m);
              due = All-weaken ids (λ id o. sym (range.exact id) ∙ o) h.parsed;
              complete = λ id. elim (Bool-cases (in_range now_ms (scores v id))) [
                | inr later ↦ inl later
                | inl due ↦
                    inr (
                      h.found id (range.exact id ∙ due) (in_range-is_some now_ms (scores v id) due))
              ];
            })
            (λ _ f. f))
        (λ f. f) (λ _ f _. f))
