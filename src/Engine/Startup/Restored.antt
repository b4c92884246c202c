-- ===== src/Engine/Startup/Restored.antt =====
-- The windows in memory after `restore_from_redis` (matcher/src/matcher.rs).
use mathlib.Core.Option.{some-injective}
use code_storm.Prelude.{
  Uuid, ℕ, ◌<◌, ◌≤◌, ◌≡◌, ◌⊎◌, refl, subst, ◌∙◌, inl, inr, true, false, Bool-cases, Option,
  Option-cases, none, some, List, [], ◌∷◌, All, All-weaken, any, concat, length, or_else, arith,
  if◌then◌else◌, ◌==◌,
}
use code_storm.Config.{Config}
use code_storm.Services.{Services, ServiceLaws}
use code_storm.Redis.View.{Keyspace}
use code_storm.Exec.Wp.{Wp, wp-bind, wp-weaken, wp-pure, wp-modify}
use code_storm.Model.Partial.{PartialTransaction}
use code_storm.Store.RedisStore.Scan.{load_all_windows-Loaded}
use code_storm.Store.RedisStore.Stored.{stored_window, stored_windows, Loaded}
use code_storm.Engine.Windows
use code_storm.Engine.Windows.{Windows, get-insert}
use code_storm.Engine.Seen.{Seen, see, wp-redis}
use code_storm.Engine.Handling.Fits.{AllFit, IsWell}
use code_storm.Engine.Startup.{insert_all, restore_from_redis}

module _ {sv : Services} {F : Type 0} (laws : ServiceLaws F sv) (cfg : Config) where
  insert-IsWell :
      (p : PartialTransaction) (windows : Windows)
      → AllFit laws cfg p.events
      → IsWell laws cfg windows
      → IsWell laws cfg (Windows.insert p.transaction_id p windows)
  insert-IsWell p windows fit well k w e = elim (Bool-cases (p.transaction_id == k)) [
    | inl same ↦
        let it : p ≡ w =
          some-injective p w (ground (arith, get-insert p.transaction_id k p windows)) in
        subst (λ q. (q.transaction_id ≡ k) × AllFit laws cfg q.events) it (ground arith, fit)
    | inr other ↦ well k w (ground (arith, get-insert p.transaction_id k p windows))
  ]

  insert_all-IsWell :
      (ps : List PartialTransaction) (windows : Windows)
      → All (λ p. AllFit laws cfg p.events) ps
      → IsWell laws cfg windows
      → IsWell laws cfg (insert_all ps windows)
  insert_all-IsWell [] windows h well = well
  insert_all-IsWell (p ∷ ps) windows (fit, h) well =
      insert_all-IsWell ps (Windows.insert p.transaction_id p windows) h
        (insert-IsWell p windows fit well)

  -- Every window that Redis holds stands under its own transaction, and fits the tables.
  abbrev pub IsSavedWell : Keyspace → Type 0
  IsSavedWell v =
      (tx : Uuid) (p : PartialTransaction)
      → stored_window sv.codec v tx ≡ some p
      → (p.transaction_id ≡ tx) × AllFit laws cfg p.events

  abbrev restored_one : Option PartialTransaction → Windows → Windows
  restored_one none windows = windows
  restored_one (some p) windows = Windows.insert p.transaction_id p windows

  -- The window of a transaction after those of a list have been restored.
  get-insert_all :
      (v : Keyspace) (txs : List Uuid) (windows : Windows) (k : Uuid)
      → IsSavedWell v
      → Windows.get k (insert_all (stored_windows sv.codec v txs) windows) ≡ (
          if any (λ tx. tx == k) txs
          then or_else (stored_window sv.codec v k) (Windows.get k windows)
          else Windows.get k windows)
  get-insert_all v [] windows k well = refl
  get-insert_all v (tx ∷ txs) windows k well = elim (Option-cases (stored_window sv.codec v tx)) [
    | inl e ↦
        let rest = get-insert_all v txs windows k well in
        rw e (elim (Bool-cases (tx == k)) [
          | inl same ↦
              let there : stored_window sv.codec v k ≡ none = moved v tx k none same e in
              rw same (ground (arith, rest, there))
          | inr other ↦ rw other rest
        ])
    | inr (p, e) ↦
        let rest = get-insert_all v txs (Windows.insert p.transaction_id p windows) k well in
        let own = (well tx p e).0 in
        let put = get-insert p.transaction_id k p windows in
        rw e (elim (Bool-cases (tx == k)) [
          | inl same ↦
              let there : stored_window sv.codec v k ≡ some p = moved v tx k (some p) same e in
              rw same (ground (arith, rest, there, put, own))
          | inr other ↦
              let off : (p.transaction_id == k) ≡ false = ground (arith, own, other) in
              rw other (rest ∙ rw (put, off) refl)
        ])
  ]
    where
      moved :
          (v : Keyspace) (tx k : Uuid) (o : Option PartialTransaction)
          → (tx == k) ≡ true
          → stored_window sv.codec v tx ≡ o
          → stored_window sv.codec v k ≡ o
      moved v tx k o same e =
          let it : tx ≡ k = ground arith in subst (λ z. stored_window sv.codec v z ≡ o) it e

  -- What a restoration leaves: the windows are well-formed, and those of the scan are all there,
  -- unless a read has failed. The others, and the servers, are as before.
  pub record Restored (txs : List Uuid) (σ τ : Seen) : Type 0 where
    pub well : IsWell laws cfg τ.windows
    pub complete :
        F
        ⊎ ((k : Uuid)
            → Windows.get k τ.windows ≡ (
                if any (λ tx. tx == k) txs
                then or_else (stored_window sv.codec σ.view k) (Windows.get k σ.windows)
                else Windows.get k σ.windows))
    pub view : τ.view ≡ σ.view
    pub tables : τ.tables ≡ σ.tables

  Loaded-Restored :
      (txs : List Uuid) (ps : List PartialTransaction) (σ : Seen)
      → IsSavedWell σ.view
      → IsWell laws cfg σ.windows
      → Loaded sv.codec F σ.view txs ps
      → Restored txs σ (record σ { windows = insert_all ps σ.windows })
  Loaded-Restored txs ps σ saved well h = record {
    well =
        insert_all-IsWell ps σ.windows (All-weaken ps (λ p (tx, e). (saved tx p e).1) h.stored)
          well;
    complete = all h.complete;
    view = refl;
    tables = refl;
  }
    where
      all :
          F ⊎ (ps ≡ stored_windows sv.codec σ.view txs)
          → F
            ⊎ ((k : Uuid)
                → Windows.get k (insert_all ps σ.windows) ≡ (
                    if any (λ tx. tx == k) txs
                    then or_else (stored_window sv.codec σ.view k) (Windows.get k σ.windows)
                    else Windows.get k σ.windows))
      all (inl f) = inl f
      all (inr e) = inr (λ k. rw e (get-insert_all σ.view txs σ.windows k saved))

  -- Where the scan has at least one page and no more than the fuel, every window that Redis holds
  -- stands under its own transaction with events that fit the transactions and so do those in
  -- memory, `restore_from_redis`, unless a service fails, does not run out of fuel and changes
  -- nothing in the servers; afterwards the windows in memory still stand so, and, unless a read
  -- has failed, every transaction that the scan lists has in memory the window that Redis holds of
  -- it, or, if there is none that can be read, what it had before, and every other one has what it
  -- had before.
  pub restore_from_redis-Restored :
      (fuel : ℕ) (σ : Seen)
      → 0 < length (laws.redis_laws.scan_pages σ.view 0)
      → length (laws.redis_laws.scan_pages σ.view 0) ≤ fuel
      → IsSavedWell σ.view
      → IsWell laws cfg σ.windows
      → Wp
          (see sv)
          σ
          (restore_from_redis sv fuel)
          (λ o τ.
            ((count : ℕ) × (o ≡ some count))
            × Restored (concat (laws.redis_laws.scan_pages σ.view 0)) σ τ)
          (λ _. F)
  unfolding restore_from_redis
  restore_from_redis-Restored fuel σ some_left enough saved well = wp-bind _ _ (
      wp-redis sv (
        wp-weaken (load_all_windows-Loaded laws.redis_laws sv.codec fuel σ.view some_left enough)
          (λ o w (same, (ps, got, h)).
            rw (same, got)
              (wp-bind _ _ (
                wp-modify _ (λ σ. record σ { windows = insert_all ps σ.windows }) (λ s. refl)
                  (wp-pure _ (
                    (length ps, refl),
                    Loaded-Restored (concat (laws.redis_laws.scan_pages σ.view 0)) ps σ saved well
                        h,
                  )))))
          (λ _ f. f)))
