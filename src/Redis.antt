-- ===== src/Redis.antt =====
-- The Redis commands that matcher/src/store.rs issues. The server is not part of the repository:
-- `Redis` has one operation for each command, over a server of any kind, and `RedisLaws` says what
-- Redis documents of their replies and effects. A key is the prefix that the source writes, with
-- the value that it formats into it; different prefixes make different keys.
pub mod View
use code_storm.Redis.View.{xgroup_create, IsPage}
use code_storm.Prelude.{◌⊎◌, true, ℕ, ◌*◌, ◌≡◌, Uuid, String, Option, List}
use code_storm.Prelude.Int.{ℤ, pos}
use code_storm.Exec.{Exec}
use code_storm.Error.{ReconcilerError, Result, ok, err, is_busy}
use code_storm.Exec.Wp.{Obeys}
use View.{
  Entry, Key, Keyspace, set_px, set_nx_px, set_nx_reply, del, zadd_text, zrem_text, removed_text,
  zadd_int, zrem_int, removed_int, IsRangeText, IsRangeInt, sadd, added, expire, incr, lpush, ltrim,
  publish, xack,
}

pub record Redis : Type 1 where
  pub Server : Type 0
  pub view : Server → Keyspace
  pub set_nx_px : Key → String → ℕ → Exec Server (Option String)
  pub set_px : Key → String → ℕ → Exec Server (Unit {0})
  pub get : Key → Exec Server (Option String)
  pub del : Key → Exec Server (Unit {0})
  pub zadd_text : Key → String → ℤ → Exec Server (Unit {0})
  pub zrem_text : Key → String → Exec Server ℤ
  pub zrangebyscore_text : Key → ℤ → Exec Server (List String)
  pub zadd_int : Key → ℤ → ℤ → Exec Server (Unit {0})
  pub zrem_int : Key → ℤ → Exec Server ℤ
  pub zrangebyscore_int : Key → ℤ → Exec Server (List ℤ)
  pub sadd : Key → String → Exec Server ℤ
  pub expire : Key → ℕ → Exec Server (Unit {0})
  pub incr : Key → Exec Server (Unit {0})
  pub setex : Key → ℕ → String → Exec Server (Unit {0})
  pub lpush : Key → String → Exec Server (Unit {0})
  pub ltrim : Key → ℕ → ℕ → Exec Server (Unit {0})
  pub publish : String → String → Exec Server (Unit {0})
  -- The stream, the group and the entry.
  pub xack : String → String → String → Exec Server ℤ
  -- `XREADGROUP GROUP group consumer COUNT count BLOCK block STREAMS stream >`; the entries of each
  -- stream of the reply.
  pub xreadgroup : String → String → ℕ → ℕ → String → Exec Server (List (List Entry))
  -- `SCAN cursor MATCH window:* COUNT 100`
  pub scan_windows : ℕ → Exec Server (ℕ × List Key)
  -- `XGROUP CREATE stream group $ MKSTREAM`
  pub xgroup_create : String → String → Exec Server String
  -- `GET`, read as an `i64`; that fails on a key which is not there.
  pub get_i64 : Key → Exec Server ℤ
  -- `LRANGE key 0 -1`
  pub lrange : Key → Exec Server (List String)
  pub ping : Exec Server String

-- A command that changes the view by a function, and replies by a relation to the view before.
abbrev pub Command :
    (r : Redis) {A : Type 0}
    → Type 0
    → (Keyspace → A → Type 0)
    → (Keyspace → Keyspace)
    → Exec r.Server A
    → Type 0
Command r faults P eff m = Obeys r.view (λ _. faults) P (λ _. eff) m

-- The reply carries nothing.
abbrev pub AnyReply : {A : Type 0} → Keyspace → A → Type 0
AnyReply v a = Unit

-- `XGROUP CREATE` makes a group that is not there, and refuses one that is with a message that
-- begins with BUSYGROUP.
abbrev pub Creates : Type 0 → String → String → Keyspace → Result String × Keyspace → Type 0
Creates faults stream group v (ok a, w) = w ≡ xgroup_create stream group v
Creates faults stream group v (err e, w) =
    faults ⊎ ((v.groups stream group ≡ true) × (is_busy e ≡ true) × (w ≡ v))

-- No key expires while a command runs; what time does to the keys is `View.elapse`. With `faults`
-- empty, no command fails.
pub record RedisLaws (faults : Type 0) (r : Redis) : Type 0 where
  pub set_nx_px_law :
      (k : Key) (t : String) (ttl : ℕ)
      → Command r faults (λ v a. a ≡ set_nx_reply k v) (set_nx_px k t ttl) (r.set_nx_px k t ttl)
  pub set_px_law :
      (k : Key) (t : String) (ttl : ℕ)
      → Command r faults AnyReply (set_px k t ttl) (r.set_px k t ttl)
  pub get_law : (k : Key) → Command r faults (λ v a. a ≡ v.strings k) (λ v. v) (r.get k)
  pub del_law : (k : Key) → Command r faults AnyReply (del k) (r.del k)
  pub zadd_text_law :
      (k : Key) (m : String) (score : ℤ)
      → Command r faults AnyReply (zadd_text k m score) (r.zadd_text k m score)
  pub zrem_text_law :
      (k : Key) (m : String)
      → Command r faults (λ v a. a ≡ removed_text k m v) (zrem_text k m) (r.zrem_text k m)
  pub zrangebyscore_text_law :
      (k : Key) (max : ℤ)
      → Command r faults
          (λ v a. IsRangeText (v.text_zsets k) max a)
          (λ v. v)
          (r.zrangebyscore_text k max)
  pub zadd_int_law :
      (k : Key) (m score : ℤ)
      → Command r faults AnyReply (zadd_int k m score) (r.zadd_int k m score)
  pub zrem_int_law :
      (k : Key) (m : ℤ)
      → Command r faults (λ v a. a ≡ removed_int k m v) (zrem_int k m) (r.zrem_int k m)
  pub zrangebyscore_int_law :
      (k : Key) (max : ℤ)
      → Command r faults
          (λ v a. IsRangeInt (v.int_zsets k) max a)
          (λ v. v)
          (r.zrangebyscore_int k max)
  pub sadd_law :
      (k : Key) (m : String) → Command r faults (λ v a. a ≡ added k m v) (sadd k m) (r.sadd k m)
  pub expire_law :
      (k : Key) (seconds : ℕ) → Command r faults AnyReply (expire k seconds) (r.expire k seconds)
  pub incr_law : (k : Key) → Command r faults AnyReply (incr k) (r.incr k)
  pub setex_law :
      (k : Key) (seconds : ℕ) (t : String)
      → Command r faults AnyReply (set_px k t (seconds * 1000)) (r.setex k seconds t)
  pub lpush_law : (k : Key) (x : String) → Command r faults AnyReply (lpush k x) (r.lpush k x)
  pub ltrim_law : (k : Key) (stop : ℕ) → Command r faults AnyReply (ltrim k stop) (r.ltrim k 0 stop)
  pub publish_law :
      (channel text : String)
      → Command r faults AnyReply (publish channel text) (r.publish channel text)
  pub xack_law :
      (stream group id : String) → Command r faults AnyReply (xack id) (r.xack stream group id)
  pub xreadgroup_law :
      (group consumer : String) (count block : ℕ) (stream : String)
      → Command r faults AnyReply (λ v. v) (r.xreadgroup group consumer count block stream)
  -- A `SCAN` goes through its pages. What Redis says of these, that a key which is there all the time
  -- is on one of them, is a hypothesis where it is used.
  pub scan_pages : Keyspace → ℕ → List (List Uuid)
  pub scan_law :
      (cursor : ℕ)
      → Command r faults
          (λ v (next, keys). IsPage (scan_pages v) cursor next keys)
          (λ v. v)
          (r.scan_windows cursor)
  pub xgroup_law :
      (stream group : String) (s : r.Server)
      → let (a, s') = r.xgroup_create stream group s in
        Creates faults stream group (r.view s) (a, r.view s')
  pub get_i64_law :
      (k : Key)
      → Obeys r.view
          (λ v. faults ⊎ (v.counters k ≡ pos 0))
          (λ v a. a ≡ v.counters k)
          (λ _ v. v)
          (r.get_i64 k)
  pub lrange_law : (k : Key) → Command r faults (λ v a. a ≡ v.lists k) (λ v. v) (r.lrange k)
  pub ping_law : Command r faults AnyReply (λ v. v) r.ping
