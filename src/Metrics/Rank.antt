-- ===== src/Metrics/Rank.antt =====
-- nearest_rank of metrics.cpp takes the percentile that its name says.
use link_scheduling.Prelude.{
  ℕ, zero, suc, ◌+◌, ◌-◌, ◌*◌, ◌/◌, ◌^◌, ◌≤◌, ◌<◌, ◌≡◌, refl, ap, min, inl, inr, Bool, List, [],
  ◌∷◌, arith, ltb, leb, if◌then◌else◌, sub64, sub64-eq, length, All, Bool-cases,
}
use link_scheduling.Metrics.Sort.{insert_by, sort_by, IsSortedBy, sort_by-IsSortedBy}
use link_scheduling.Metrics.Summary.{
  Percentile, p50, p99, in_hundred, element, rank_of, nearest_rank,
}

-- How many elements pass a test.
abbrev pub count : (ℕ → Bool) → List ℕ → ℕ
count test [] = 0
count test (x ∷ xs) = (if test x then 1 else 0) + count test xs

-- In every hundred of the values, `percentile` at least are at most `v`, and less are under it.
pub record IsRank (values : List ℕ) (percentile v : ℕ) : Type 0 where
  pub enough : percentile * length values ≤ 100 * count (λ x. leb x v) values
  pub least : 100 * count (λ x. ltb x v) values < percentile * length values

count-insert_by :
    (test : ℕ → Bool) (a : ℕ) (xs : List ℕ)
    → count test (insert_by (λ v. v) a xs) ≡ (if test a then 1 else 0) + count test xs
unfolding insert_by
count-insert_by test a [] = refl
count-insert_by test a (x ∷ xs) = elim (Bool-cases (leb a x)) [
  | inl h ↦ rw (h, insert_by) refl
  | inr h ↦ rw (h, insert_by) (omega (arith, count-insert_by test a xs))
]

count-sort_by : (test : ℕ → Bool) (xs : List ℕ) → count test (sort_by (λ v. v) xs) ≡ count test xs
unfolding sort_by
count-sort_by test [] = refl
count-sort_by test (x ∷ xs) =
    omega (arith, count-insert_by test x (sort_by (λ v. v) xs), count-sort_by test xs)

length-insert_by : (a : ℕ) (xs : List ℕ) → length (insert_by (λ v. v) a xs) ≡ suc (length xs)
unfolding insert_by
length-insert_by a [] = refl
length-insert_by a (x ∷ xs) = elim (Bool-cases (leb a x)) [
  | inl h ↦ rw (h, insert_by) refl
  | inr h ↦ rw (h, insert_by) (omega (arith, length-insert_by a xs))
]

length-sort_by : (xs : List ℕ) → length (sort_by (λ v. v) xs) ≡ length xs
unfolding sort_by
length-sort_by [] = refl
length-sort_by (x ∷ xs) = omega (arith, length-insert_by x (sort_by (λ v. v) xs), length-sort_by xs)

element-All : (x i : ℕ) (xs : List ℕ) → All (λ y. x ≤ y) xs → i < length xs → x ≤ element i xs
element-All x i [] hs h = absurd (omega arith)
element-All x zero (y ∷ ys) (k, hs) h = k
element-All x (suc i) (y ∷ ys) (k, hs) h = element-All x i ys hs (omega arith)

count-none : (x : ℕ) (xs : List ℕ) → All (λ y. x ≤ y) xs → count (λ y. ltb y x) xs ≡ 0
count-none x [] hs = refl
count-none x (y ∷ ys) (k, hs) = ground (arith, count-none x ys hs)

-- At an index of a sorted list.
count-element :
    (i : ℕ) (xs : List ℕ)
    → IsSortedBy (λ v. v) xs
    → i < length xs
    → (i < count (λ y. leb y (element i xs)) xs) × (count (λ y. ltb y (element i xs)) xs ≤ i)
count-element i [] s h = absurd (omega arith)
count-element zero (x ∷ xs) (k, s) h = (ground arith, ground (arith, count-none x xs k))
count-element (suc i) (x ∷ xs) (k, s) h =
    let (le, lt) = count-element i xs s (omega arith) in
    let below : x ≤ element i xs = element-All x i xs k (omega arith) in
    (ground (arith, le, below), ground (arith, lt, below))

rank_bounds :
    (p : Percentile) (n : ℕ)
    → 0 < n
    → n < 2 ^ 40
    → let i = min (sub64 (rank_of p n) 1) (n - 1) in
      (in_hundred p * n ≤ 100 * suc i) × (100 * i < in_hundred p * n)
rank_bounds p50 n pos few =
    let e : sub64 ((n + 1) / 2) 1 ≡ (n + 1) / 2 - 1 =
      sub64-eq ((n + 1) / 2) 1 (omega arith) (omega arith) in
    rw e (omega arith, omega arith)
rank_bounds p99 n pos few =
    let e : sub64 ((99 * n + 99) / 100) 1 ≡ (99 * n + 99) / 100 - 1 =
      sub64-eq ((99 * n + 99) / 100) 1 (omega arith) (omega arith) in
    rw e (omega arith, omega arith)

IsRank-sort_by :
    (values : List ℕ) (percentile v : ℕ)
    → IsRank (sort_by (λ x. x) values) percentile v
    → IsRank values percentile v
IsRank-sort_by values percentile v r =
    let size = ap (λ (k : ℕ). percentile * k) (length-sort_by values) in
    record {
      enough = omega (arith, r.enough, size, count-sort_by (λ x. leb x v) values);
      least = omega (arith, r.least, size, count-sort_by (λ x. ltb x v) values);
    }

sorted-IsRank :
    (sorted : List ℕ) (p : Percentile)
    → IsSortedBy (λ v. v) sorted
    → 0 < length sorted
    → length sorted < 2 ^ 40
    → let n = length sorted in
      IsRank sorted (in_hundred p) (element (min (sub64 (rank_of p n) 1) (n - 1)) sorted)
sorted-IsRank sorted p s some_value few =
    let n = length sorted in
    let i = min (sub64 (rank_of p n) 1) (n - 1) in
    let (up, down) = rank_bounds p n some_value few in
    let (le, lt) = count-element i sorted s (omega arith) in
    record { enough = omega (arith, le, up); least = omega (arith, lt, down) }

-- For each percentile that print_summary asks for, 50 and 99, and values of which there are some but
-- fewer than 2^40, nearest_rank returns a value that at least that percentage of the values are at most,
-- and that less than that percentage are under, however often values occur.
pub nearest_rank-IsRank :
    (x : ℕ) (xs : List ℕ) (p : Percentile)
    → length (x ∷ xs) < 2 ^ 40
    → IsRank (x ∷ xs) (in_hundred p) (nearest_rank (x ∷ xs) p)
unfolding nearest_rank
nearest_rank-IsRank x xs p few =
    let values : List ℕ = x ∷ xs in
    let size = length-sort_by values in
    IsRank-sort_by values (in_hundred p) _ (
      sorted-IsRank (sort_by (λ v. v) values) p (sort_by-IsSortedBy (λ v. v) values)
        (omega (arith, size)) (omega (arith, size, few)))
