-- ===== src/Store/RedisStore/Group.antt =====
-- `ensure_consumer_group` (matcher/src/store.rs): the group before and after it.
use text.Mathlib.Text.{find?}
use text.Mathlib.TextEquality.{eq_iff}
use code_storm.Prelude.{
  String, ◌≡◌, ◌⊎◌, refl, inl, inr, true, arith, subst, Bool, false, is_some, sym, ◌∙◌, Bool-cases,
  ap,
}
use code_storm.Error.{
  Result, ok, err, ReconcilerError, is_busy, postgres, serde, uuid, invalid_payload, missing_field,
}
use code_storm.Exec.{attempt, pure, ◌>>=◌, raise}
use code_storm.Redis.{Redis, RedisLaws, Creates}
use code_storm.Redis.View.{Keyspace, xgroup_create}
use code_storm.Store.RedisStore.{ensure_consumer_group, group_result}

-- The group is there, and nothing else has changed.
pub record HasGroup (stream group : String) (v w : Keyspace) : Type 0 where
  pub there : w.groups stream group ≡ true
  pub only : (w ≡ v) ⊎ (w ≡ xgroup_create stream group v)

-- The error says that the group is there already.
abbrev pub SaysBusy : ReconcilerError → Type 0
SaysBusy e =
    (message : String) × (e ≡ ReconcilerError.redis message)
    × (is_some (find? message "BUSYGROUP") ≡ true)

module _ {r : Redis} {F : Type 0} (laws : RedisLaws F r) (stream group : String) where
  -- What follows from the reply of Redis, which leaves the view `w`: the group is new; or it was
  -- there before, which is as good; or the error is passed on.
  abbrev pub Follows : Keyspace → Result String → Keyspace → Result (Unit {0}) → Type 0
  Follows v (ok a) w o = (o ≡ ok tt) × HasGroup stream group v w
  Follows v (err e) w o =
      (SaysBusy e × (o ≡ ok tt) × (F ⊎ HasGroup stream group v w))
      ⊎ ((¬ SaysBusy e) × (o ≡ err e) × F)

  created-HasGroup : (v : Keyspace) → HasGroup stream group v (xgroup_create stream group v)
  created-HasGroup v = record {
    there = ground (arith, eq_iff stream stream, eq_iff group group);
    only = inr refl;
  }

  busy-SaysBusy : (e : ReconcilerError) → is_busy e ≡ true → SaysBusy e
  busy-SaysBusy (ReconcilerError.redis message) h = (message, refl, h)
  busy-SaysBusy (postgres message) h = cc
  busy-SaysBusy (serde message) h = cc
  busy-SaysBusy (uuid message) h = cc
  busy-SaysBusy (invalid_payload message) h = cc
  busy-SaysBusy (missing_field message) h = cc

  not_busy : (e : ReconcilerError) → is_busy e ≡ false → ¬ SaysBusy e
  not_busy e h (message, own, found) = absurd (cc (sym h ∙ ap is_busy own ∙ found))

  held :
      (v w : Keyspace) (b : Bool)
      → F ⊎ ((v.groups stream group ≡ true) × (b ≡ true) × (w ≡ v))
      → F ⊎ HasGroup stream group v w
  held v w b (inl f) = inl f
  held v w b (inr (there, _, same)) = inr (record { there = rw same there; only = inl same })

  fault :
      (v w : Keyspace) (b : Bool)
      → F ⊎ ((v.groups stream group ≡ true) × (b ≡ true) × (w ≡ v))
      → b ≡ false
      → F
  fault v w b (inl f) h = f
  fault v w b (inr (_, busy, _)) h = cc

  result-Follows :
      (v : Keyspace) (reply : Result String) (s : r.Server)
      → Creates F stream group v (reply, r.view s)
      → Follows v reply (r.view s) (group_result r reply s).0 × ((group_result r reply s).1 ≡ s)
  unfolding pure raise
  result-Follows v (ok a) s e =
      ((refl, subst (HasGroup stream group v) (sym e) (created-HasGroup v)), refl)
  result-Follows v (err e) s h = elim (Bool-cases (is_busy e)) [
    | inl busy ↦ rw busy (inl (busy-SaysBusy e busy, refl, held v (r.view s) (is_busy e) h), refl)
    | inr other ↦
        rw other (inr (not_busy e other, refl, fault v (r.view s) (is_busy e) h other), refl)
  ]

  -- If Redis creates the group, `ensure_consumer_group` succeeds, and the stream has the group and
  -- Redis is otherwise as it was; if the reply is an error of Redis that says BUSYGROUP, it
  -- succeeds too, and the stream has the group unless a service has failed; and with any other
  -- error, which only a fault causes, it ends in that same error.
  pub ensure_consumer_group-HasGroup :
      (s : r.Server)
      → Follows
          (r.view s)
          (r.xgroup_create stream group s).0
          (r.view (ensure_consumer_group r stream group s).1)
          (ensure_consumer_group r stream group s).0
  unfolding ensure_consumer_group attempt ◌>>=◌
  ensure_consumer_group-HasGroup s =
      let (reply, t) = r.xgroup_create stream group s in
      let (follows, same) = result-Follows (r.view s) reply t (laws.xgroup_law stream group s) in
      rw same follows
