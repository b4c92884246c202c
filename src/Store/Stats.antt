-- ===== src/Store/Stats.antt =====
-- matcher/src/store.rs: the latencies in `get_matcher_stats`. A percentile is kept in microseconds,
-- where the source divides by 1000.0, and the mean as the sum and the number that it divides.
pub mod Percentiles
pub mod Totals
pub mod Numbers
pub mod Report
use code_storm.Prelude.{
  ℕ, ◌-◌, ◌*◌, ◌/◌, Option, none, some, List, [], ◌∷◌, if◌then◌else◌, length, get_elem?, and_then,
  leb,
}
use code_storm.Prelude.Int.{ℤ, pos, ◌+ℤ◌, leb_ℤ, add_i64}

abbrev pub insert_sorted : ℤ → List ℤ → List ℤ
insert_sorted x [] = x ∷ []
insert_sorted x (y ∷ ys) =
    let rest = insert_sorted x ys in if leb_ℤ x y then x ∷ y ∷ ys else y ∷ rest

-- `vals.sort()`
unfoldable pub sort : List ℤ → List ℤ
sort [] = []
sort (x ∷ xs) = insert_sorted x (sort xs)

-- `vals.iter().sum::<i64>()`, in a release build, where the additions wrap; the first argument of
-- `sum_from` is the sum so far.
abbrev pub sum_from : ℤ → List ℤ → ℤ
sum_from acc [] = acc
sum_from acc (x ∷ xs) = sum_from (add_i64 acc x) xs

abbrev pub sum : List ℤ → ℤ
sum vals = sum_from (pos 0) vals

-- `std::cmp::min`
abbrev pub min : ℕ → ℕ → ℕ
min a b = if leb a b then a else b

pub record Stats : Type 0 where
  pub p50_micros : ℤ
  pub p99_micros : ℤ
  pub total_micros : ℤ
  pub count : ℕ

abbrev pub at_percentiles : List ℤ → ℤ → Option ℤ → Option Stats
at_percentiles vals p50 none = none
at_percentiles vals p50 (some p99) =
    some
      (record { p50_micros = p50; p99_micros = p99; total_micros = sum vals; count = length vals })

-- The closure `calc_stats`, on values that are sorted; `none` is the panic of an index that is out
-- of range.
unfoldable pub calc_stats : List ℤ → Option Stats
calc_stats [] =
    some (record { p50_micros = pos 0; p99_micros = pos 0; total_micros = pos 0; count = 0 })
calc_stats (v ∷ vs) =
    let vals = v ∷ vs in
    and_then (get_elem? vals (length vals / 2)) (λ p50.
      at_percentiles vals p50 (get_elem? vals (min (length vals * 99 / 100) (length vals - 1))))
