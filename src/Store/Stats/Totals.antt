-- ===== src/Store/Stats/Totals.antt =====
-- The sum in `calc_stats` (matcher/src/store.rs), against the sum of the integers.
use code_storm.Prelude.{
  suc, ◌≡◌, refl, sym, ap, ◌∙◌, Bool-cases, inl, inr, List, [], ◌∷◌, length, arith,
}
use code_storm.Prelude.Int.{
  ℤ, pos, ◌+ℤ◌, leb_ℤ, IsI64, wrap_i64, add_i64, wrap_i64-IsI64, wrap_i64-eq, +ℤ_comm, +ℤ_assoc,
  +ℤ_zero, wrap_i64-wrap_i64,
}
use code_storm.Store.Stats.{insert_sorted, sort, sum_from, sum}

-- The sum of the integers, from the last one on.
abbrev pub total : List ℤ → ℤ
total [] = pos 0
total (x ∷ xs) = x +ℤ total xs

sum_from-eq :
    (acc : ℤ) (vals : List ℤ) → IsI64 acc → sum_from acc vals ≡ wrap_i64 (acc +ℤ total vals)
unfolding add_i64
sum_from-eq acc [] h = sym (ap wrap_i64 (+ℤ_zero acc) ∙ wrap_i64-eq acc h)
sum_from-eq acc (x ∷ xs) h =
    sum_from-eq (wrap_i64 (acc +ℤ x)) xs (wrap_i64-IsI64 (acc +ℤ x))
    ∙ wrap_i64-wrap_i64 (acc +ℤ x) (total xs)
    ∙ ap wrap_i64 (sym (+ℤ_assoc acc x (total xs)))

-- The sum of the machine is the sum of the integers, wrapped in the end.
pub sum-eq : (vals : List ℤ) → sum vals ≡ wrap_i64 (total vals)
sum-eq vals =
    sum_from-eq (pos 0) vals (omega arith, omega arith)
    ∙ ap wrap_i64 (+ℤ_comm (pos 0) (total vals) ∙ +ℤ_zero (total vals))

swap : (x y t : ℤ) → y +ℤ (x +ℤ t) ≡ x +ℤ (y +ℤ t)
swap x y t = +ℤ_assoc y x t ∙ ap (λ z. z +ℤ t) (+ℤ_comm y x) ∙ sym (+ℤ_assoc x y t)

total-insert_sorted : (x : ℤ) (ys : List ℤ) → total (insert_sorted x ys) ≡ x +ℤ total ys
total-insert_sorted x [] = refl
total-insert_sorted x (y ∷ ys) = elim (Bool-cases (leb_ℤ x y)) [
  | inl before ↦ rw before refl
  | inr after ↦ rw after (ap (λ t. y +ℤ t) (total-insert_sorted x ys) ∙ swap x y (total ys))
]

pub total-sort : (vals : List ℤ) → total (sort vals) ≡ total vals
unfolding sort
total-sort [] = refl
total-sort (x ∷ xs) = total-insert_sorted x (sort xs) ∙ ap (λ t. x +ℤ t) (total-sort xs)

length-insert_sorted : (x : ℤ) (ys : List ℤ) → length (insert_sorted x ys) ≡ suc (length ys)
length-insert_sorted x [] = refl
length-insert_sorted x (y ∷ ys) = elim (Bool-cases (leb_ℤ x y)) [
  | inl before ↦ rw before refl
  | inr after ↦ rw after (ap suc (length-insert_sorted x ys))
]

pub length-sort : (vals : List ℤ) → length (sort vals) ≡ length vals
unfolding sort
length-sort [] = refl
length-sort (x ∷ xs) = length-insert_sorted x (sort xs) ∙ ap suc (length-sort xs)
