-- ===== src/Examples/RedisServer.antt =====
-- A Redis server whose commands all succeed, with its laws.
use mathlib.Core.Path.{fun_ext}
use text.Mathlib.Text.{◌==◌ as str_eq}
use text.Mathlib.TextEquality.{eq_iff}
use code_storm.Prelude.{
  ℕ, ◌+◌, true, false, ◌*◌, ◌≡◌, refl, Bool, if◌then◌else◌, some, Option, none, [], ◌∷◌, String,
  arith, Bool-cases, inl, inr, is_some,
}
use code_storm.Prelude.Int.{pos, ℤ, ◌==ℤ◌, ==ℤ_iff}
use code_storm.Exec.{Exec}
use code_storm.Error.{ReconcilerError, ok, err}
use code_storm.Redis.{Redis, RedisLaws}
use code_storm.Redis.View
use code_storm.Redis.View.{Key, Keyspace, key_eq, put, elapse, is_dead}
use code_storm.Examples.Zset.{Scores, score_of, without, range, range-IsRange, score_of-without}

pub record Server : Type 0 where
  pub base : Keyspace
  pub texts : Key → Scores String
  pub ints : Key → Scores ℤ

abbrev pub view : Server → Keyspace
view s = record s.base {
  text_zsets = λ k. score_of str_eq (s.texts k);
  int_zsets = λ k. score_of ◌==ℤ◌ (s.ints k);
}

abbrev on_base : (Keyspace → Keyspace) → Server → Server
on_base f s = record s { base = f s.base }

abbrev del : Key → Server → Server
del k s = record { base = View.del k s.base; texts = put k [] s.texts; ints = put k [] s.ints }

abbrev pub zadd_text : Key → String → ℤ → Server → Server
zadd_text k m score s = record s {
  texts = put k ((m, score) ∷ without str_eq m (s.texts k)) s.texts;
}

abbrev zrem_text : Key → String → Server → Server
zrem_text k m s = record s { texts = put k (without str_eq m (s.texts k)) s.texts }

abbrev pub zadd_int : Key → ℤ → ℤ → Server → Server
zadd_int k m score s = record s { ints = put k ((m, score) ∷ without ◌==ℤ◌ m (s.ints k)) s.ints }

abbrev zrem_int : Key → ℤ → Server → Server
zrem_int k m s = record s { ints = put k (without ◌==ℤ◌ m (s.ints k)) s.ints }

abbrev xgroup_create : String → String → Exec Server String
xgroup_create stream group s =
    if s.base.groups stream group
    then (err (ReconcilerError.redis "BUSYGROUP Consumer Group name already exists"), s)
    else (ok "OK", on_base (View.xgroup_create stream group) s)

abbrev pub redis : Redis
redis = record {
  Server = Server;
  view = view;
  set_nx_px = λ k t ttl s. (ok (View.set_nx_reply k (view s)), on_base (View.set_nx_px k t ttl) s);
  set_px = λ k t ttl s. (ok tt, on_base (View.set_px k t ttl) s);
  get = λ k s. (ok (s.base.strings k), s);
  del = λ k s. (ok tt, del k s);
  zadd_text = λ k m score s. (ok tt, zadd_text k m score s);
  zrem_text = λ k m s. (ok (View.removed_text k m (view s)), zrem_text k m s);
  zrangebyscore_text = λ k max s. (ok (range str_eq max (s.texts k)), s);
  zadd_int = λ k m score s. (ok tt, zadd_int k m score s);
  zrem_int = λ k m s. (ok (View.removed_int k m (view s)), zrem_int k m s);
  zrangebyscore_int = λ k max s. (ok (range ◌==ℤ◌ max (s.ints k)), s);
  sadd = λ k m s. (ok (View.added k m (view s)), on_base (View.sadd k m) s);
  expire = λ k seconds s. (ok tt, on_base (View.expire k seconds) s);
  incr = λ k s. (ok tt, on_base (View.incr k) s);
  setex = λ k seconds t s. (ok tt, on_base (View.set_px k t (seconds * 1000)) s);
  lpush = λ k x s. (ok tt, on_base (View.lpush k x) s);
  ltrim = λ k start stop s. (ok tt, on_base (View.ltrim k stop) s);
  publish = λ channel t s. (ok tt, on_base (View.publish channel t) s);
  xack = λ stream group id s. (ok (pos 1), on_base (View.xack id) s);
  xreadgroup = λ group consumer count block stream s. (ok [], s);
  scan_windows = λ cursor s. (ok (0, View.window 7 ∷ []), s);
  xgroup_create = xgroup_create;
  get_i64 = λ k s. (ok (s.base.counters k), s);
  lrange = λ k s. (ok (s.base.lists k), s);
  ping = λ s. (ok "PONG", s);
}

-- Two views with the same sorted sets, where the rest is the same by computation.
module _ (k : Key) where
  put_score :
      {A : Type 0} (eq : A → A → Bool) (f : Key → Scores A) (l : Scores A) (g : A → Option ℤ)
      → ((m : A) → score_of eq l m ≡ g m)
      → ◌≡◌ {A = Key → A → Option ℤ}
          (λ j. score_of eq (put k l f j))
          (put k g (λ j. score_of eq (f j)))
  put_score eq f l g h = fun_ext λ j. elim (Bool-cases (key_eq k j)) [
    | inl same ↦ rw same (fun_ext h)
    | inr other ↦ rw other refl
  ]

  pub del-view : (s : Server) → view (del k s) ≡ View.del k (view s)
  del-view s = λ i. record (View.del k s.base) {
    text_zsets = put_score str_eq s.texts [] (λ _. none) (λ m. refl) i;
    int_zsets = put_score ◌==ℤ◌ s.ints [] (λ _. none) (λ m. refl) i;
  }

  pub zadd_text-view :
      (m : String) (score : ℤ) (s : Server)
      → view (zadd_text k m score s) ≡ View.zadd_text k m score (view s)
  zadd_text-view m score s = λ i. record (view s) {
    text_zsets =
        put_score str_eq s.texts ((m, score) ∷ without str_eq m (s.texts k))
          (λ n. if str_eq m n then some score else score_of str_eq (s.texts k) n)
          (λ n. ground (arith, score_of-without str_eq eq_iff m n (s.texts k))) i;
  }

  pub zrem_text-view :
      (m : String) (s : Server) → view (zrem_text k m s) ≡ View.zrem_text k m (view s)
  zrem_text-view m s = λ i. record (view s) {
    text_zsets =
        put_score str_eq s.texts (without str_eq m (s.texts k))
          (λ n. if str_eq m n then none else score_of str_eq (s.texts k) n)
          (λ n. score_of-without str_eq eq_iff m n (s.texts k)) i;
  }

  pub zadd_int-view :
      (m score : ℤ) (s : Server) → view (zadd_int k m score s) ≡ View.zadd_int k m score (view s)
  zadd_int-view m score s = λ i. record (view s) {
    int_zsets =
        put_score ◌==ℤ◌ s.ints ((m, score) ∷ without ◌==ℤ◌ m (s.ints k))
          (λ n. if m ==ℤ n then some score else score_of ◌==ℤ◌ (s.ints k) n)
          (λ n. ground (arith, score_of-without ◌==ℤ◌ ==ℤ_iff m n (s.ints k))) i;
  }

  pub zrem_int-view : (m : ℤ) (s : Server) → view (zrem_int k m s) ≡ View.zrem_int k m (view s)
  zrem_int-view m s = λ i. record (view s) {
    int_zsets =
        put_score ◌==ℤ◌ s.ints (without ◌==ℤ◌ m (s.ints k))
          (λ n. if m ==ℤ n then none else score_of ◌==ℤ◌ (s.ints k) n)
          (λ n. score_of-without ◌==ℤ◌ ==ℤ_iff m n (s.ints k)) i;
  }

pub set_nx_px-view :
    (k : Key) (t : String) (ttl : ℕ) (s : Server)
    → view (on_base (View.set_nx_px k t ttl) s) ≡ View.set_nx_px k t ttl (view s)
set_nx_px-view k t ttl s = elim (Bool-cases (is_some (s.base.strings k))) [
  | inl held ↦ rw held refl
  | inr free ↦ rw free refl
]

dead_scores :
    {A : Type 0} (eq : A → A → Bool) (dead : Bool) (l : Scores A)
    → ◌≡◌ {A = A → Option ℤ}
        (score_of eq (if dead then [] else l))
        (if dead then (λ _. none) else score_of eq l)
dead_scores eq true l = refl
dead_scores eq false l = refl

-- The server some milliseconds later.
abbrev pub after : ℕ → Server → Server
after d s = record {
  base = elapse d s.base;
  texts = λ k. if is_dead (s.base.expires k) (s.base.clock_ms + d) then [] else s.texts k;
  ints = λ k. if is_dead (s.base.expires k) (s.base.clock_ms + d) then [] else s.ints k;
}

pub after-view : (d : ℕ) (s : Server) → view (after d s) ≡ elapse d (view s)
unfolding elapse
after-view d s = λ i. record (elapse d (view s)) {
  text_zsets =
      λ k. dead_scores str_eq (is_dead (s.base.expires k) (s.base.clock_ms + d)) (s.texts k) i;
  int_zsets =
      λ k. dead_scores ◌==ℤ◌ (is_dead (s.base.expires k) (s.base.clock_ms + d)) (s.ints k) i;
}

unfoldable pub redis_laws : RedisLaws ⊥ redis
redis_laws = record {
  set_nx_px_law = λ k t ttl. record { at = λ s. (refl, set_nx_px-view k t ttl s) };
  set_px_law = λ k t ttl. record { at = λ s. (tt, refl) };
  get_law = λ k. record { at = λ s. (refl, refl) };
  del_law = λ k. record { at = λ s. (tt, del-view k s) };
  zadd_text_law = λ k m score. record { at = λ s. (tt, zadd_text-view k m score s) };
  zrem_text_law = λ k m. record { at = λ s. (refl, zrem_text-view k m s) };
  zrangebyscore_text_law =
      λ k max. record { at = λ s. (range-IsRange str_eq eq_iff max (s.texts k), refl) };
  zadd_int_law = λ k m score. record { at = λ s. (tt, zadd_int-view k m score s) };
  zrem_int_law = λ k m. record { at = λ s. (refl, zrem_int-view k m s) };
  zrangebyscore_int_law =
      λ k max. record { at = λ s. (range-IsRange ◌==ℤ◌ ==ℤ_iff max (s.ints k), refl) };
  sadd_law = λ k m. record { at = λ s. (refl, refl) };
  expire_law = λ k seconds. record { at = λ s. (tt, refl) };
  incr_law = λ k. record { at = λ s. (tt, refl) };
  setex_law = λ k seconds t. record { at = λ s. (tt, refl) };
  lpush_law = λ k x. record { at = λ s. (tt, refl) };
  ltrim_law = λ k stop. record { at = λ s. (tt, refl) };
  publish_law = λ channel t. record { at = λ s. (tt, refl) };
  xack_law = λ stream group id. record { at = λ s. (tt, refl) };
  xreadgroup_law = λ group consumer count block stream. record { at = λ s. (tt, refl) };
  scan_pages = λ v cursor. (7 ∷ []) ∷ [];
  scan_law = λ cursor. record {
    at = λ s. (record { page = 7 ∷ []; rest = []; first = refl; names = refl; more = refl }, refl);
  };
  xgroup_law = λ stream group s. elim (Bool-cases (s.base.groups stream group)) [
    | inl held ↦ rw held (inr (held, refl, refl))
    | inr free ↦ rw free refl
  ];
  get_i64_law = λ k. record { at = λ s. (refl, refl) };
  lrange_law = λ k. record { at = λ s. (refl, refl) };
  ping_law = record { at = λ s. (tt, refl) };
}
