-- ===== src/Redis/View.antt =====
-- What a client sees of a Redis server, and what Redis documents of its commands on that.
use text.Mathlib.Text.{◌==◌ as str_eq}
use code_storm.Prelude.{
  ℕ, suc, ◌+◌, ◌*◌, ◌≡◌, Uuid, String, Bool, true, false, ◌||◌, Option, none, some, List, [], ◌∷◌,
  ◌==◌, leb, ◌&&◌, map, if◌then◌else◌, is_some, take,
}
use code_storm.Prelude.Int.{ℤ, pos, ◌+ℤ◌, ◌==ℤ◌, leb_ℤ}

pub data Key : Type 0 where
  dedup_event window sources : Uuid → Key
  deadlines incident_escalations : Key
  last_seen source_events : String → Key
  events_total latencies_total latencies_logic matches_success matches_failed : Key

abbrev pub key_eq : Key → Key → Bool
key_eq (dedup_event a) (dedup_event b) = a == b
key_eq (window a) (window b) = a == b
key_eq (sources a) (sources b) = a == b
key_eq deadlines deadlines = true
key_eq incident_escalations incident_escalations = true
key_eq (last_seen a) (last_seen b) = str_eq a b
key_eq (source_events a) (source_events b) = str_eq a b
key_eq events_total events_total = true
key_eq latencies_total latencies_total = true
key_eq latencies_logic latencies_logic = true
key_eq matches_success matches_success = true
key_eq matches_failed matches_failed = true
key_eq _ _ = false

-- The keys that are there, by the type of their value; `expires` has the time at which a key goes.
-- `published` lists what was sent to the channels, `acknowledged` the entries of the stream that
-- the consumer group has acknowledged, the latest first, `groups` the groups of each stream.
pub record Keyspace : Type 0 where
  pub clock_ms : ℕ
  pub strings : Key → Option String
  pub sets : Key → String → Bool
  pub text_zsets : Key → String → Option ℤ
  pub int_zsets : Key → ℤ → Option ℤ
  pub lists : Key → List String
  pub counters : Key → ℤ
  pub expires : Key → Option ℕ
  pub published : List (String × String)
  pub acknowledged : List String
  pub groups : String → String → Bool

-- A map with one key changed.
abbrev pub put : {A : Type 0} → Key → A → (Key → A) → Key → A
put k a f j = if key_eq k j then a else f j

abbrev pub set_px : Key → String → ℕ → Keyspace → Keyspace
set_px k t ttl v = record v {
  strings = put k (some t) v.strings;
  expires = put k (some (v.clock_ms + ttl)) v.expires;
}

abbrev pub set_nx_px : Key → String → ℕ → Keyspace → Keyspace
set_nx_px k t ttl v = if is_some (v.strings k) then v else set_px k t ttl v

-- `SET … NX` replies OK if the key was set, and nil if it was there.
abbrev pub set_nx_reply : Key → Keyspace → Option String
set_nx_reply k v = if is_some (v.strings k) then none else some "OK"

abbrev pub del : Key → Keyspace → Keyspace
del k v = record v {
  strings = put k none v.strings;
  sets = put k (λ _. false) v.sets;
  text_zsets = put k (λ _. none) v.text_zsets;
  int_zsets = put k (λ _. none) v.int_zsets;
  lists = put k [] v.lists;
  counters = put k (pos 0) v.counters;
  expires = put k none v.expires;
}

abbrev pub zadd_text : Key → String → ℤ → Keyspace → Keyspace
zadd_text k m score v = record v {
  text_zsets = put k (λ n. if str_eq m n then some score else v.text_zsets k n) v.text_zsets;
}

abbrev pub zrem_text : Key → String → Keyspace → Keyspace
zrem_text k m v = record v {
  text_zsets = put k (λ n. if str_eq m n then none else v.text_zsets k n) v.text_zsets;
}

abbrev pub removed_text : Key → String → Keyspace → ℤ
removed_text k m v = if is_some (v.text_zsets k m) then pos 1 else pos 0

abbrev pub zadd_int : Key → ℤ → ℤ → Keyspace → Keyspace
zadd_int k m score v = record v {
  int_zsets = put k (λ n. if m ==ℤ n then some score else v.int_zsets k n) v.int_zsets;
}

abbrev pub zrem_int : Key → ℤ → Keyspace → Keyspace
zrem_int k m v = record v {
  int_zsets = put k (λ n. if m ==ℤ n then none else v.int_zsets k n) v.int_zsets;
}

abbrev pub removed_int : Key → ℤ → Keyspace → ℤ
removed_int k m v = if is_some (v.int_zsets k m) then pos 1 else pos 0

-- A member whose score is at most `max`.
abbrev pub in_range : ℤ → Option ℤ → Bool
in_range max none = false
in_range max (some score) = leb_ℤ score max

-- A `ZRANGEBYSCORE` from minus infinity lists each member with such a score once.
abbrev pub occurs : {A : Type 0} → (A → A → Bool) → A → List A → Bool
occurs eq a [] = false
occurs eq a (x ∷ xs) = eq x a || occurs eq a xs

abbrev pub IsOnce : {A : Type 0} → (A → A → Bool) → List A → Type 0
IsOnce eq [] = Unit
IsOnce eq (x ∷ xs) = (occurs eq x xs ≡ false) × IsOnce eq xs

pub record IsRange {A : Type 0} (eq : A → A → Bool) (zset : A → Option ℤ) (max : ℤ)
    (members : List A) : Type 0 where
  pub exact : (m : A) → occurs eq m members ≡ in_range max (zset m)
  pub once : IsOnce eq members

abbrev pub IsRangeText : (String → Option ℤ) → ℤ → List String → Type 0
IsRangeText = IsRange str_eq

abbrev pub IsRangeInt : (ℤ → Option ℤ) → ℤ → List ℤ → Type 0
IsRangeInt = IsRange ◌==ℤ◌

abbrev pub sadd : Key → String → Keyspace → Keyspace
sadd k m v = record v { sets = put k (λ n. if str_eq m n then true else v.sets k n) v.sets }

-- The number of members that `SADD` added.
abbrev pub added : Key → String → Keyspace → ℤ
added k m v = if v.sets k m then pos 0 else pos 1

abbrev pub expire : Key → ℕ → Keyspace → Keyspace
expire k seconds v = record v { expires = put k (some (v.clock_ms + seconds * 1000)) v.expires }

abbrev pub incr : Key → Keyspace → Keyspace
incr k v = record v { counters = put k (v.counters k +ℤ pos 1) v.counters }

abbrev pub lpush : Key → String → Keyspace → Keyspace
lpush k x v = record v { lists = put k (x ∷ v.lists k) v.lists }

abbrev pub ltrim : Key → ℕ → Keyspace → Keyspace
ltrim k stop v = record v { lists = put k (take (suc stop) (v.lists k)) v.lists }

abbrev pub publish : String → String → Keyspace → Keyspace
publish channel text v = record v { published = (channel, text) ∷ v.published }

-- The stream and the group are those of the configuration.
abbrev pub xack : String → Keyspace → Keyspace
xack id v = record v { acknowledged = id ∷ v.acknowledged }

abbrev pub xgroup_create : String → String → Keyspace → Keyspace
xgroup_create stream group v = record v {
  groups = λ s g. if str_eq stream s && str_eq group g then true else v.groups s g;
}

-- An entry of a stream, with its field `payload` if that is there and holds bytes.
pub record Entry : Type 0 where
  pub id : String
  pub payload : Option String

-- The pages of a `SCAN` that is under way: it replies with the first one, and with the cursor of the
-- next one, or 0 after the last.
abbrev pub IsNext : (ℕ → List (List Uuid)) → ℕ → List (List Uuid) → Type 0
IsNext pages next [] = next ≡ 0
IsNext pages next (p ∷ rest) = ((next == 0) ≡ false) × (pages next ≡ p ∷ rest)

pub record IsPage (pages : ℕ → List (List Uuid)) (cursor next : ℕ) (keys : List Key) : Type 0 where
  pub page : List Uuid
  pub rest : List (List Uuid)
  pub first : pages cursor ≡ page ∷ rest
  pub names : keys ≡ map (λ tx. window tx) page
  pub more : IsNext pages next rest

-- A key is gone by a time.
abbrev pub is_dead : Option ℕ → ℕ → Bool
is_dead none now = false
is_dead (some t) now = leb t now

-- Time passes: keys whose time has come go.
unfoldable pub elapse : ℕ → Keyspace → Keyspace
elapse d v =
    let now : ℕ = v.clock_ms + d in
    record {
      clock_ms = now;
      strings = λ k. if is_dead (v.expires k) now then none else v.strings k;
      sets = λ k. if is_dead (v.expires k) now then (λ _. false) else v.sets k;
      text_zsets = λ k. if is_dead (v.expires k) now then (λ _. none) else v.text_zsets k;
      int_zsets = λ k. if is_dead (v.expires k) now then (λ _. none) else v.int_zsets k;
      lists = λ k. if is_dead (v.expires k) now then [] else v.lists k;
      counters = λ k. if is_dead (v.expires k) now then pos 0 else v.counters k;
      expires = λ k. if is_dead (v.expires k) now then none else v.expires k;
      published = v.published;
      acknowledged = v.acknowledged;
      groups = v.groups;
    }
