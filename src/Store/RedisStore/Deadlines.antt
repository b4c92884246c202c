-- ===== src/Store/RedisStore/Deadlines.antt =====
-- `pop_expired_deadlines` (matcher/src/store.rs): what leaves the sorted set, and what is returned.
use text.Mathlib.Text.{◌==◌ as str_eq}
use text.Mathlib.TextEquality.{eq_iff}
use code_storm.Prelude.{
  All-weaken, Uuid, String, ◌≡◌, ◌⊎◌, refl, ◌∙◌, sym, ap, Bool, true, false, Bool-cases, inl, inr,
  Option, some, none, List, [], ◌∷◌, All, any, ◌==◌, arith, if◌then◌else◌, is_some,
}
use code_storm.Prelude.Int.{ℤ, pos, ◌==ℤ◌}
use code_storm.Codec.{Codec, CodecLaws}
use code_storm.Exec.Wp.{Wp, wp-bind, wp-command, wp-pure, wp-weaken}
use code_storm.Redis.{Redis, RedisLaws}
use code_storm.Redis.View.{Keyspace, deadlines, occurs, in_range, zrem_text, removed_text}
use code_storm.Store.RedisStore.{pop_deadlines, pop_expired_deadlines, push_parsed}

-- The transactions that have a deadline, by the text of their id.
abbrev scores : Keyspace → String → Option ℤ
scores v = v.text_zsets deadlines

module _ (c : Codec) where
  -- A list of members is removed: each identifier comes from one of them.
  record Removed (members : List String) (v : Keyspace) (ids : List Uuid) (w : Keyspace)
      : Type 0 where
    gone : (m : String) → scores w m ≡ (if occurs str_eq m members then none else scores v m)
    parsed :
        All
          (λ id.
            (m : String) × (c.parse_uuid m ≡ some id)
            × (occurs str_eq m members ≡ true)
            × (is_some (scores v m) ≡ true))
          ids
    found :
        (m : String) (tx : Uuid)
        → c.parse_uuid m ≡ some tx
        → occurs str_eq m members ≡ true
        → is_some (scores v m) ≡ true
        → any (λ id. id == tx) ids ≡ true

  -- The due transactions are popped: none of them is left, those not due stay, and each identifier
  -- is that of a due member; a transaction that is not among them is not due.
  pub record Popped (now_ms : ℤ) (v : Keyspace) (ids : List Uuid) (w : Keyspace) : Type 0 where
    pub left :
        (m : String) → scores w m ≡ (if in_range now_ms (scores v m) then none else scores v m)
    pub due :
        All
          (λ id. (m : String) × (c.parse_uuid m ≡ some id) × (in_range now_ms (scores v m) ≡ true))
          ids
    pub complete :
        (tx : Uuid)
        → (in_range now_ms (scores v (c.uuid_to_string tx)) ≡ false)
          ⊎ (any (λ id. id == tx) ids ≡ true)

pub in_range-is_some : (max : ℤ) (o : Option ℤ) → in_range max o ≡ true → is_some o ≡ true
in_range-is_some max none h = h
in_range-is_some max (some score) h = refl

module _ {r : Redis} {F : Type 0} (laws : RedisLaws F r) {c : Codec} (codec : CodecLaws c) where
  -- What one member adds.
  abbrev with_member : Bool → Option Uuid → List Uuid → List Uuid
  with_member there o ids = if there then push_parsed r c o ids else ids

  any-with_member :
      (there : Bool) (o : Option Uuid) (ids : List Uuid) (tx : Uuid)
      → any (λ id. id == tx) ids ≡ true
      → any (λ id. id == tx) (with_member there o ids) ≡ true
  any-with_member false o ids tx h = h
  any-with_member true none ids tx h = h
  any-with_member true (some id) ids tx h = ground arith

  All-with_member :
      {P : Uuid → Type 0} (there : Bool) (o : Option Uuid) (ids : List Uuid)
      → ((id : Uuid) → there ≡ true → o ≡ some id → P id)
      → All P ids
      → All P (with_member there o ids)
  All-with_member false o ids f h = h
  All-with_member true none ids f h = h
  All-with_member true (some id) ids f h = (f id refl refl, h)

  first_parsed :
      (there : Bool) (o : Option Uuid) (ids : List Uuid) (tx : Uuid)
      → there ≡ true
      → o ≡ some tx
      → any (λ id. id == tx) (with_member there o ids) ≡ true
  first_parsed there o ids tx h e = rw (h, e) (ground arith)

  was_there :
      (v : Keyspace) (m : String) → (removed_text deadlines m v ==ℤ pos 1) ≡ is_some (scores v m)
  was_there v m = ground arith

  Removed-step :
      (m : String) (ms : List String) (v w : Keyspace) (ids : List Uuid) (there : Bool)
      → there ≡ is_some (scores v m)
      → Removed c ms (zrem_text deadlines m v) ids w
      → Removed c (m ∷ ms) v (with_member there (c.parse_uuid m) ids) w
  Removed-step m ms v w ids there e h = record {
    gone = λ n. ground (arith, h.gone n);
    parsed =
        All-with_member there (c.parse_uuid m) ids
          (λ id t q. (m, q, ground (arith, eq_iff m m), sym e ∙ t))
          (All-weaken ids (λ id (n, q, o, t). (n, q, ground arith, ground arith)) h.parsed);
    found = λ n tx q o t. elim (Bool-cases (str_eq m n)) [
      | inl same ↦
          let same' : m ≡ n = (eq_iff m n).0 same in
          first_parsed there (c.parse_uuid m) ids tx (cc) (cc)
      | inr other ↦
          any-with_member there (c.parse_uuid m) ids tx
            (h.found n tx q (ground arith) (ground arith))
    ];
  }

  pop_deadlines-Removed :
      (members : List String) (v : Keyspace)
      → Wp r.view v (pop_deadlines r c members) (λ ids w. Removed c members v ids w) (λ _. F)
  unfolding pop_deadlines
  pop_deadlines-Removed [] v =
      wp-pure [] (record { gone = λ m. refl; parsed = tt; found = λ m tx q o t. cc })
  pop_deadlines-Removed (m ∷ ms) v = wp-bind _ _ (
      wp-command (laws.zrem_text_law deadlines m)
        (λ removed e. wp-bind _ _ (
          wp-weaken (pop_deadlines-Removed ms (zrem_text deadlines m v))
            (λ ids w h. wp-pure _ (
              Removed-step m ms v w ids (removed ==ℤ pos 1)
                (ap (λ x. x ==ℤ pos 1) e ∙ was_there v m) h))
            (λ _ f. f)))
        (λ f. f) (λ _ f _. f))

  -- Popping the deadlines up to a time, unless Redis fails, takes exactly the due members out of
  -- the sorted set, returns only identifiers read from due members, and returns every transaction
  -- whose deadline is due.
  pub pop_expired_deadlines-Popped :
      (now_ms : ℤ) (v : Keyspace)
      → Wp r.view v (pop_expired_deadlines r c now_ms) (λ ids w. Popped c now_ms v ids w) (λ _. F)
  unfolding pop_expired_deadlines
  pop_expired_deadlines-Popped now_ms v = wp-bind _ _ (
      wp-command (laws.zrangebyscore_text_law deadlines now_ms)
        (λ members range.
          wp-weaken (pop_deadlines-Removed members v)
            (λ ids w h. record {
              left = λ m. ground (arith, h.gone m, range.exact m);
              due = All-weaken ids (λ id (m, q, o, t). (m, q, sym (range.exact m) ∙ o)) h.parsed;
              complete = λ tx.
                  let t = c.uuid_to_string tx in
                  elim (Bool-cases (in_range now_ms (scores v t))) [
                    | inr later ↦ inl later
                    | inl due ↦ inr (
                        h.found t tx (codec.uuid_round_trip tx) (range.exact t ∙ due)
                          (in_range-is_some now_ms (scores v t) due))
                  ];
            })
            (λ _ f. f))
        (λ f. f) (λ _ f _. f))
