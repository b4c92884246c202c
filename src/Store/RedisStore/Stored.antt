-- ===== src/Store/RedisStore/Stored.antt =====
-- The windows that Redis holds, and what was loaded of them (matcher/src/store.rs).
use code_storm.Redis.View.{Keyspace, window}
use code_storm.Prelude.{
  Uuid, ◌≡◌, ◌⊎◌, refl, ap, ◌∙◌, inl, inr, Option, none, some, List, [], ◌∷◌, ◌++◌, All, All-append,
  and_then,
}
use code_storm.Error.{Result, ok, err}
use code_storm.Codec.{Codec}
use code_storm.Model.Partial.{PartialTransaction}

module _ (c : Codec) where
  abbrev pub parsed : Result PartialTransaction → Option PartialTransaction
  parsed (ok p) = some p
  parsed (err e) = none

  -- The window that is stored under the key of a transaction, if it can be read.
  abbrev pub stored_window : Keyspace → Uuid → Option PartialTransaction
  stored_window v tx = and_then (v.strings (window tx)) (λ t. parsed (c.window_from_json t))

  abbrev pub push : Option PartialTransaction → List PartialTransaction → List PartialTransaction
  push none windows = windows
  push (some p) windows = p ∷ windows

  abbrev pub stored_windows : Keyspace → List Uuid → List PartialTransaction
  stored_windows v [] = []
  stored_windows v (tx ∷ txs) = push (stored_window v tx) (stored_windows v txs)

  pub stored_windows-append :
      (v : Keyspace) (xs ys : List Uuid)
      → stored_windows v (xs ++ ys) ≡ stored_windows v xs ++ stored_windows v ys
  stored_windows-append v [] ys = refl
  stored_windows-append v (x ∷ xs) ys =
      ap (push (stored_window v x)) (stored_windows-append v xs ys)
      ∙ push-append (stored_window v x) (stored_windows v xs) (stored_windows v ys)
    where
      push-append :
          (o : Option PartialTransaction) (ps qs : List PartialTransaction)
          → push o (ps ++ qs) ≡ push o ps ++ qs
      push-append none ps qs = refl
      push-append (some p) ps qs = refl

  -- A window that some key holds.
  abbrev pub IsStored : Keyspace → PartialTransaction → Type 0
  IsStored v p = (tx : Uuid) × (stored_window v tx ≡ some p)

  -- What was loaded of the windows of some transactions: only what is stored, and all of that
  -- unless a read has failed.
  pub record Loaded (F : Type 0) (v : Keyspace) (txs : List Uuid)
      (windows : List PartialTransaction) : Type 0 where
    pub stored : All (IsStored v) windows
    pub complete : F ⊎ (windows ≡ stored_windows v txs)

  module _ {F : Type 0} {v : Keyspace} where
    pub Loaded-append :
        (xs ys : List Uuid) (ps qs : List PartialTransaction)
        → Loaded F v xs ps
        → Loaded F v ys qs
        → Loaded F v (xs ++ ys) (ps ++ qs)
    Loaded-append xs ys ps qs a b = record {
      stored = All-append (IsStored v) ps qs a.stored b.stored;
      complete = both a.complete b.complete;
    }
      where
        both :
            F ⊎ (ps ≡ stored_windows v xs)
            → F ⊎ (qs ≡ stored_windows v ys)
            → F ⊎ (ps ++ qs ≡ stored_windows v (xs ++ ys))
        both (inl f) h = inl f
        both (inr e) (inl f) = inl f
        both (inr e) (inr e') = inr (rw (e, e', stored_windows-append v xs ys) refl)

    pub Loaded-push :
        (tx : Uuid) (txs : List Uuid) (windows : List PartialTransaction)
        → Loaded F v txs windows
        → Loaded F v (tx ∷ txs) (push (stored_window v tx) windows)
    Loaded-push tx txs windows h = record {
      stored = one (stored_window v tx) refl;
      complete = all h.complete;
    }
      where
        one :
            (o : Option PartialTransaction)
            → stored_window v tx ≡ o
            → All (IsStored v) (push o windows)
        one none e = h.stored
        one (some p) e = ((tx, e), h.stored)

        all :
            F ⊎ (windows ≡ stored_windows v txs)
            → F ⊎ (push (stored_window v tx) windows ≡ stored_windows v (tx ∷ txs))
        all (inl f) = inl f
        all (inr e) = inr (ap (push (stored_window v tx)) e)
