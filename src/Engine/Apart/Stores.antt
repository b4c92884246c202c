-- ===== src/Engine/Apart/Stores.antt =====
-- The store's operations (matcher/src/store.rs) for one transaction leave the others alone.
use text.Mathlib.Text.{◌==◌ as str_eq}
use text.Mathlib.TextEquality.{eq_iff}
use code_storm.Prelude.{
  Uuid, String, Bool, true, false, Bool-cases, inl, inr, ap, sym, ◌∙◌, ◌≡◌, refl, ◌==◌, arith, List,
  Option,
}
use code_storm.Prelude.Int.{ℤ}
use code_storm.Codec.{Codec, CodecLaws}
use code_storm.Redis.{Redis, RedisLaws}
use code_storm.Redis.View.{
  Key, dedup_event, Keyspace, window, sources, deadlines, incident_escalations,
}
use code_storm.Postgres.{Postgres, PostgresLaws}
use code_storm.Exec.{Exec}
use code_storm.Exec.Wp.{wp-weaken}
use code_storm.Exec.Keeps.{
  Keeps, command-Keeps, bind-Keeps, if-Keeps, lift-Keeps, pure-Keeps, for_each-Keeps, IsFrame,
}
use code_storm.Model.Partial.{PartialTransaction}
use code_storm.Model.Incident.{Incident, ReconciliationDetail}
use code_storm.Store.RedisStore
use code_storm.Store.PostgresStore
use code_storm.Store.RedisStore.Metrics.{Metered, record_event_processed-Metered}
use code_storm.Engine.Apart.{Scope, ApartView, ApartTables, view-IsFrame, tables-IsFrame, IsFrame}

-- Different identifiers have different texts.
uuid_to_string-apart :
    {c : Codec} (laws : CodecLaws c) (tx k : Uuid)
    → (tx == k) ≡ false
    → str_eq (c.uuid_to_string tx) (c.uuid_to_string k) ≡ false
uuid_to_string-apart {c} laws tx k h =
    elim (Bool-cases (str_eq (c.uuid_to_string tx) (c.uuid_to_string k))) [
      | inl same ↦
          let texts : c.uuid_to_string tx ≡ c.uuid_to_string k =
            ground (arith, eq_iff (c.uuid_to_string tx) (c.uuid_to_string k)) in
          let ids =
            sym (laws.uuid_round_trip tx) ∙ ap c.parse_uuid texts ∙ laws.uuid_round_trip k in
          absurd (ground (arith, ids))
      | inr other ↦ other
    ]

untouched :
    (c : Codec) (scope : Scope) (tx : Uuid) (v w : Keyspace)
    → w.strings ≡ v.strings
    → w.sets ≡ v.sets
    → w.text_zsets ≡ v.text_zsets
    → w.acknowledged ≡ v.acknowledged
    → ApartView c scope tx v w
untouched c scope tx v w e f g h = record {
  claims = λ id h. ap (λ z. z (dedup_event id)) e;
  saved = λ k h. ap (λ z. z (window k)) e;
  registered = λ k h. ap (λ z. z (sources k)) f;
  due = λ k h. ap (λ z. z deadlines (c.uuid_to_string k)) g;
  acknowledged = h;
}

module _ {r : Redis} {F : Type 0} (laws : RedisLaws F r) {c : Codec} (codec_laws : CodecLaws c)
    (scope : Scope) (tx : Uuid) where
  -- The step leaves what Redis holds of the other transactions alone.
  abbrev Leaves : {A : Type 0} → Exec r.Server A → Type 0
  Leaves m = Keeps r.view (ApartView c scope tx) m

  abbrev frame : IsFrame (ApartView c scope tx)
  frame = view-IsFrame c scope tx

  pub publish-Leaves : (channel message : String) → Leaves (RedisStore.publish r channel message)
  unfolding RedisStore.publish
  publish-Leaves channel message =
      command-Keeps frame (laws.publish_law channel message)
        (λ _ v. untouched c scope tx _ _ refl refl refl refl)

  pub record_match_result-Leaves : (b : Bool) → Leaves (RedisStore.record_match_result r b)
  unfolding RedisStore.record_match_result
  record_match_result-Leaves b = if-Keeps frame b _ _ (counts _) (counts _)
    where
      counts : (k : Key) → Leaves (r.incr k)
      counts k =
          command-Keeps frame (laws.incr_law k)
            (λ _ v. untouched c scope tx _ _ refl refl refl refl)

  pub add_escalation-Leaves : (id at_ms : ℤ) → Leaves (RedisStore.add_escalation r id at_ms)
  unfolding RedisStore.add_escalation
  add_escalation-Leaves id at_ms =
      command-Keeps frame (laws.zadd_int_law incident_escalations id at_ms)
        (λ _ v. untouched c scope tx _ _ refl refl refl refl)

  pub record_event_processed-Leaves :
      (now source : String) (total logic : ℤ)
      → Leaves (RedisStore.record_event_processed r c now source total logic)
  record_event_processed-Leaves now source total logic v =
      wp-weaken (record_event_processed-Metered laws c now source total logic v)
        (λ _ w m. metered m) (λ w m. metered m)
    where
      metered : {v w : Keyspace} → Metered v w → ApartView c scope tx v w
      metered m = record {
        claims = λ id h. m.claims id;
        saved = λ k h. m.windows k;
        registered = λ k h. ap (λ z. z (sources k)) m.sets;
        due = λ k h. ap (λ z. z deadlines (c.uuid_to_string k)) m.text_zsets;
        acknowledged = m.acknowledged;
      }

  pub save_window-Leaves :
      (p : PartialTransaction) → p.transaction_id ≡ tx → Leaves (RedisStore.save_window r c p)
  unfolding RedisStore.save_window
  save_window-Leaves p e = bind-Keeps frame _ _ (lift-Keeps frame _) (λ t.
      command-Keeps frame (laws.set_px_law (window p.transaction_id) t 30_000) (λ _ v. record {
        claims = λ id h. refl;
        saved = λ k h. rw (e, h) refl;
        registered = λ k h. refl;
        due = λ k h. refl;
        acknowledged = refl;
      }))

  pub delete_window-Leaves : Leaves (RedisStore.delete_window r tx)
  unfolding RedisStore.delete_window
  delete_window-Leaves = command-Keeps frame (laws.del_law (window tx)) (λ _ v. record {
    claims = λ id h. refl;
    saved = λ k h. rw h refl;
    registered = λ k h. refl;
    due = λ k h. refl;
    acknowledged = refl;
  })

  pub cleanup_sources-Leaves : scope.own_sources ≡ true → Leaves (RedisStore.cleanup_sources r tx)
  unfolding RedisStore.cleanup_sources
  cleanup_sources-Leaves own = command-Keeps frame (laws.del_law (sources tx)) (λ _ v. record {
    claims = λ id h. refl;
    saved = λ k h. refl;
    registered = λ k h. let other : (tx == k) ≡ false = ground arith in rw other refl;
    due = λ k h. refl;
    acknowledged = refl;
  })

  pub add_deadline-Leaves : (at_ms : ℤ) → Leaves (RedisStore.add_deadline r c tx at_ms)
  unfolding RedisStore.add_deadline
  add_deadline-Leaves at_ms =
      command-Keeps frame (laws.zadd_text_law deadlines (c.uuid_to_string tx) at_ms) (λ _ v.
        record {
          claims = λ id h. refl;
          saved = λ k h. refl;
          registered = λ k h. refl;
          due = λ k h. rw (uuid_to_string-apart codec_laws tx k h) refl;
          acknowledged = refl;
        })

  pub remove_deadline-Leaves : Leaves (RedisStore.remove_deadline r c tx)
  unfolding RedisStore.remove_deadline
  remove_deadline-Leaves =
      bind-Keeps frame _ _
        (command-Keeps frame (laws.zrem_text_law deadlines (c.uuid_to_string tx)) (λ _ v. record {
          claims = λ id h. refl;
          saved = λ k h. refl;
          registered = λ k h. refl;
          due = λ k h. rw (uuid_to_string-apart codec_laws tx k h) refl;
          acknowledged = refl;
        }))
        (λ _. pure-Keeps frame tt)

module _ {p : Postgres} {F : Type 0} (laws : PostgresLaws F p) (tx : Uuid) where
  abbrev LeavesTables : {A : Type 0} → Exec p.Db A → Type 0
  LeavesTables m = Keeps p.tables (ApartTables tx) m

  pub upsert_transaction-LeavesTables :
      (status currency tx_type : String) (merchant_id : Option String) (micros : ℤ)
      → LeavesTables
          (PostgresStore.upsert_transaction p tx status currency tx_type merchant_id micros)
  unfolding PostgresStore.upsert_transaction
  upsert_transaction-LeavesTables status currency tx_type merchant_id micros =
      command-Keeps (tables-IsFrame tx) (laws.insert_transaction_law tx _)
        (λ _ t. record { rows = λ k h. rw h refl; details = λ k h s. refl })

  pub upsert_details-LeavesTables :
      (ds : List ReconciliationDetail)
      → LeavesTables (PostgresStore.upsert_reconciliation_details p tx ds)
  unfolding PostgresStore.upsert_reconciliation_details
  upsert_details-LeavesTables ds = for_each-Keeps (tables-IsFrame tx) _ ds (λ d.
      command-Keeps (tables-IsFrame tx) (laws.insert_detail_law tx d)
        (λ _ t. record { rows = λ k h. refl; details = λ k h s. rw h refl }))

  pub create_incident-LeavesTables :
      (i : Incident) → LeavesTables (PostgresStore.create_incident p i)
  unfolding PostgresStore.create_incident
  create_incident-LeavesTables i =
      command-Keeps (tables-IsFrame tx) (laws.insert_incident_law _)
        (λ _ t. record { rows = λ k h. refl; details = λ k h s. refl })
