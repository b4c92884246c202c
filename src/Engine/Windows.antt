-- ===== src/Engine/Windows.antt =====
-- The map of the open windows, `DashMap<Uuid, PartialTransaction>`, in no particular order.
use code_storm.Prelude.{
  ◌==◌, Uuid, Option, none, some, List, [], ◌∷◌, if◌then◌else◌, ◌≡◌, arith, false,
}
use code_storm.Model.Partial.{PartialTransaction}

abbrev pub Windows : Type 0
Windows = List (Uuid × PartialTransaction)

unfoldable pub get : Uuid → Windows → Option PartialTransaction
get tx [] = none
get tx ((k, w) ∷ rest) = if tx == k then some w else get tx rest

unfoldable pub remove : Uuid → Windows → Windows
remove tx [] = []
remove tx ((k, w) ∷ rest) =
    let others = remove tx rest in if tx == k then others else (k, w) ∷ others

unfoldable pub insert : Uuid → PartialTransaction → Windows → Windows
insert tx w windows = (tx, w) ∷ remove tx windows

pub get-remove :
    (tx k : Uuid) (windows : Windows)
    → get k (remove tx windows) ≡ (if tx == k then none else get k windows)
unfolding get remove
get-remove tx k [] = ground arith
get-remove tx k ((j, w) ∷ rest) = ground (arith, get-remove tx k rest)

pub get-insert :
    (tx k : Uuid) (w : PartialTransaction) (windows : Windows)
    → get k (insert tx w windows) ≡ (if tx == k then some w else get k windows)
unfolding get insert
get-insert tx k w windows = ground (arith, get-remove tx k windows)

pub get-insert_self :
    (tx : Uuid) (w : PartialTransaction) (windows : Windows) → get tx (insert tx w windows) ≡ some w
get-insert_self tx w windows = ground (arith, get-insert tx tx w windows)

pub get-insert_ne :
    (tx k : Uuid) (w : PartialTransaction) (windows : Windows)
    → (tx == k) ≡ false
    → get k (insert tx w windows) ≡ get k windows
get-insert_ne tx k w windows h = ground (arith, get-insert tx k w windows)

pub ruleset window_laws = (get-remove, get-insert)
