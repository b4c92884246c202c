-- ===== src/Store/Stats/Percentiles.antt =====
-- `calc_stats` (matcher/src/store.rs) on sorted latencies: its indices and its percentiles.
use code_storm.Store.Stats.Totals.{sum-eq, total}
use code_storm.Prelude.{
  ℕ, zero, suc, ◌-◌, ◌*◌, ◌/◌, ◌<◌, ◌≤◌, ◌≡◌, refl, true, false, Bool-cases, inl, inr, some, List,
  [], ◌∷◌, length, get_elem?, arith, All,
}
use code_storm.Prelude.Int.{ℤ, leb_ℤ, wrap_i64}
use code_storm.Store.Stats.{sum, insert_sorted, sort, min, Stats, calc_stats}

abbrev IsBelow : ℤ → List ℤ → Type 0
IsBelow x vals = All (λ y. leb_ℤ x y ≡ true) vals

abbrev IsSorted : List ℤ → Type 0
IsSorted [] = Unit
IsSorted (x ∷ xs) = IsBelow x xs × IsSorted xs

leb_ℤ-trans : (a b c : ℤ) → leb_ℤ a b ≡ true → leb_ℤ b c ≡ true → leb_ℤ a c ≡ true
leb_ℤ-trans a b c h k = ground arith

leb_ℤ-total : (a b : ℤ) → leb_ℤ a b ≡ false → leb_ℤ b a ≡ true
leb_ℤ-total a b h = ground arith

leb_ℤ-refl : (a : ℤ) → leb_ℤ a a ≡ true
leb_ℤ-refl a = ground arith

IsBelow-weaken : (x y : ℤ) (l : List ℤ) → leb_ℤ x y ≡ true → IsBelow y l → IsBelow x l
IsBelow-weaken x y [] h b = tt
IsBelow-weaken x y (z ∷ l) h (k, b) = (leb_ℤ-trans x y z h k, IsBelow-weaken x y l h b)

insert_sorted-IsBelow :
    (x y : ℤ) (l : List ℤ) → leb_ℤ x y ≡ true → IsBelow x l → IsBelow x (insert_sorted y l)
insert_sorted-IsBelow x y [] h b = (h, tt)
insert_sorted-IsBelow x y (z ∷ l) h (k, b) = elim (Bool-cases (leb_ℤ y z)) [
  | inl le ↦ rw le (h, (k, b))
  | inr gt ↦ rw gt (k, insert_sorted-IsBelow x y l h b)
]

insert_sorted-IsSorted : (y : ℤ) (l : List ℤ) → IsSorted l → IsSorted (insert_sorted y l)
insert_sorted-IsSorted y [] h = (tt, tt)
insert_sorted-IsSorted y (z ∷ l) (b, h) = elim (Bool-cases (leb_ℤ y z)) [
  | inl le ↦ rw le ((le, IsBelow-weaken y z l le b), (b, h))
  | inr gt ↦
      rw gt (insert_sorted-IsBelow z y l (leb_ℤ-total y z gt) b, insert_sorted-IsSorted y l h)
]

sort-IsSorted : (l : List ℤ) → IsSorted (sort l)
unfolding sort
sort-IsSorted [] = tt
sort-IsSorted (x ∷ xs) = insert_sorted-IsSorted x (sort xs) (sort-IsSorted xs)

get_elem?-there : (vals : List ℤ) (n : ℕ) → n < length vals → (v : ℤ) × (get_elem? vals n ≡ some v)
get_elem?-there [] n h = absurd (omega arith)
get_elem?-there (v ∷ vs) zero h = (v, refl)
get_elem?-there (v ∷ vs) (suc n) h = get_elem?-there vs n (omega arith)

get_elem?-below :
    (x v : ℤ) (vals : List ℤ) (n : ℕ)
    → IsBelow x vals
    → get_elem? vals n ≡ some v
    → leb_ℤ x v ≡ true
get_elem?-below x v [] n b e = cc
get_elem?-below x v (y ∷ vals) zero (h, b) e = ground arith
get_elem?-below x v (y ∷ vals) (suc n) (h, b) e = get_elem?-below x v vals n b e

-- In a sorted list a later element is not less.
get_elem?-ordered :
    (a b : ℤ) (vals : List ℤ) (i j : ℕ)
    → IsSorted vals
    → i ≤ j
    → get_elem? vals i ≡ some a
    → get_elem? vals j ≡ some b
    → leb_ℤ a b ≡ true
get_elem?-ordered a b [] i j s h e f = cc
get_elem?-ordered a b (x ∷ vals) zero zero s h e f = ground (arith, leb_ℤ-refl x)
get_elem?-ordered a b (x ∷ vals) zero (suc j) (below, s) h e f =
    let first = get_elem?-below x b vals j below f in ground arith
get_elem?-ordered a b (x ∷ vals) (suc i) zero s h e f = absurd (omega arith)
get_elem?-ordered a b (x ∷ vals) (suc i) (suc j) (below, s) h e f =
    get_elem?-ordered a b vals i j s (omega arith) e f

middle_below : (n : ℕ) → suc n / 2 < suc n
middle_below n = omega arith

last_below : (n : ℕ) → min (suc n * 99 / 100) (suc n - 1) < suc n
last_below n = ground arith

middle_first : (n : ℕ) → suc n / 2 ≤ min (suc n * 99 / 100) (suc n - 1)
middle_first n = ground arith

-- The statistics exist, the median is not above the 99th percentile, and the total and the count
-- are those of the values.
abbrev pub IsOrdered : List ℤ → Type 0
IsOrdered vals =
    (stats : Stats) × (calc_stats vals ≡ some stats)
    × (leb_ℤ stats.p50_micros stats.p99_micros ≡ true)
    × (stats.total_micros ≡ wrap_i64 (total vals))
    × (stats.count ≡ length vals)

sorted-IsOrdered : (vals : List ℤ) → IsSorted vals → IsOrdered vals
unfolding calc_stats
sorted-IsOrdered [] s = (_, refl, refl, sum-eq [], refl)
sorted-IsOrdered (v ∷ vs) s =
    let vals = v ∷ vs in
    let (p50, e) = get_elem?-there vals (length vals / 2) (middle_below (length vs)) in
    let (p99, f) =
      get_elem?-there vals (min (length vals * 99 / 100) (length vals - 1))
        (last_below (length vs)) in
    (
      record { p50_micros = p50; p99_micros = p99; total_micros = sum vals; count = length vals },
      rw (e, f) refl,
      get_elem?-ordered p50 p99 vals _ _ s (middle_first (length vs)) e f,
      sum-eq vals,
      refl,
    )

-- On sorted latencies `calc_stats` reads no index out of range, so that it gives statistics; the
-- median of these is not above the 99th percentile, and the total is the wrapped sum.
pub calc_stats-IsOrdered : (latencies : List ℤ) → IsOrdered (sort latencies)
calc_stats-IsOrdered latencies = sorted-IsOrdered (sort latencies) (sort-IsSorted latencies)
