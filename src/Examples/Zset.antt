-- ===== src/Examples/Zset.antt =====
-- Sorted sets as lists, for a server to run the examples on.
use code_storm.Prelude.{
  ◌≡◌, ◌↔◌, refl, Bool, true, false, Option, none, some, List, [], ◌∷◌, arith, if◌then◌else◌,
}
use code_storm.Prelude.Int.{ℤ, leb_ℤ}
use code_storm.Redis.View.{occurs, IsOnce, IsRange, in_range}

abbrev pub Scores : Type 0 → Type 0
Scores A = List (A × ℤ)

module _ {A : Type 0} (eq : A → A → Bool) where
  abbrev pub score_of : Scores A → A → Option ℤ
  score_of [] m = none
  score_of ((a, s) ∷ l) m = if eq a m then some s else score_of l m

  abbrev pub without : A → Scores A → Scores A
  without m [] = []
  without m ((a, s) ∷ l) = let rest = without m l in if eq a m then rest else (a, s) ∷ rest

  abbrev drop_member : A → List A → List A
  drop_member a [] = []
  drop_member a (x ∷ xs) = let rest = drop_member a xs in if eq x a then rest else x ∷ rest

  abbrev pub range : ℤ → Scores A → List A
  range max [] = []
  range max ((a, s) ∷ l) =
      let rest = drop_member a (range max l) in if leb_ℤ s max then a ∷ rest else rest

  module _ (eq_iff : (a b : A) → (eq a b ≡ true) ↔ (a ≡ b)) where
    pub score_of-without :
        (a m : A) (l : Scores A)
        → score_of (without a l) m ≡ (if eq a m then none else score_of l m)
    score_of-without a m [] = ground arith
    score_of-without a m ((b, s) ∷ l) =
        ground (arith, score_of-without a m l, eq_iff b a, eq_iff b m, eq_iff a m)

    occurs-drop_member :
        (a m : A) (xs : List A)
        → occurs eq m (drop_member a xs) ≡ (if eq a m then false else occurs eq m xs)
    occurs-drop_member a m [] = ground arith
    occurs-drop_member a m (x ∷ xs) =
        ground (arith, occurs-drop_member a m xs, eq_iff x a, eq_iff x m, eq_iff a m)

    drop_member-IsOnce : (a : A) (xs : List A) → IsOnce eq xs → IsOnce eq (drop_member a xs)
    drop_member-IsOnce a [] h = tt
    drop_member-IsOnce a (x ∷ xs) h =
        ground (arith, drop_member-IsOnce a xs h.1, occurs-drop_member a x xs)

    range_exact :
        (max : ℤ) (l : Scores A) (m : A) → occurs eq m (range max l) ≡ in_range max (score_of l m)
    range_exact max [] m = refl
    range_exact max ((a, s) ∷ l) m =
        ground (arith, range_exact max l m, occurs-drop_member a m (range max l), eq_iff a m)

    range-IsOnce : (max : ℤ) (l : Scores A) → IsOnce eq (range max l)
    range-IsOnce max [] = tt
    range-IsOnce max ((a, s) ∷ l) = ground (
      arith,
      drop_member-IsOnce a (range max l) (range-IsOnce max l),
      occurs-drop_member a a (range max l),
      eq_iff a a,
    )

    pub range-IsRange : (max : ℤ) (l : Scores A) → IsRange eq (score_of l) max (range max l)
    range-IsRange max l = record { exact = range_exact max l; once = range-IsOnce max l }
