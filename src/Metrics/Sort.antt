-- ===== src/Metrics/Sort.antt =====
-- std::sort by a key, as write_csv and nearest_rank of metrics.cpp use it.
use mathlib.Core.List.{Perm}
use mathlib.Core.List.Perm
use link_scheduling.Prelude.{
  ℕ, ◌≤◌, inl, inr, List, [], ◌∷◌, arith, leb, if◌then◌else◌, Bool-cases, All,
}

-- Elements with equal keys keep their order, which std::sort leaves open.
module _ {ℓ} {A : Type ℓ} (key : A → ℕ) where
  unfoldable pub insert_by : A → List A → List A
  insert_by a [] = a ∷ []
  insert_by a (x ∷ xs) =
      let more = insert_by a xs in if leb (key a) (key x) then a ∷ (x ∷ xs) else x ∷ more

  unfoldable pub sort_by : List A → List A
  unfolding insert_by
  sort_by [] = []
  sort_by (x ∷ xs) = insert_by x (sort_by xs)

  abbrev pub IsSortedBy : List A → Type 0
  IsSortedBy [] = Unit
  IsSortedBy (x ∷ xs) = All (λ y. key x ≤ key y) xs × IsSortedBy xs

module _ {ℓ} {A : Type ℓ} (key : A → ℕ) where
  insert_by-Perm : (a : A) (xs : List A) → Perm (insert_by key a xs) (a ∷ xs)
  unfolding insert_by
  insert_by-Perm a [] = Perm.rfl
  insert_by-Perm a (x ∷ xs) = elim (Bool-cases (leb (key a) (key x))) [
    | inl h ↦ rw (h, insert_by) Perm.rfl
    | inr h ↦ rw (h, insert_by) (Perm.trans (Perm.cons x (insert_by-Perm a xs)) (Perm.swap a x xs))
  ]

  pub sort_by-Perm : (xs : List A) → Perm (sort_by key xs) xs
  unfolding sort_by
  sort_by-Perm [] = Perm.rfl
  sort_by-Perm (x ∷ xs) =
      Perm.trans (insert_by-Perm x (sort_by key xs)) (Perm.cons x (sort_by-Perm xs))

  insert_by-All :
      (P : A → Type 0) (a : A) (xs : List A) → P a → All P xs → All P (insert_by key a xs)
  unfolding insert_by
  insert_by-All P a [] h hs = (h, tt)
  insert_by-All P a (x ∷ xs) h (k, hs) = elim (Bool-cases (leb (key a) (key x))) [
    | inl e ↦ rw (e, insert_by) (h, (k, hs))
    | inr e ↦ rw (e, insert_by) (k, insert_by-All P a xs h hs)
  ]

  All-le :
      (a x : A) (xs : List A)
      → key a ≤ key x
      → All (λ y. key x ≤ key y) xs
      → All (λ y. key a ≤ key y) xs
  All-le a x [] h hs = tt
  All-le a x (y ∷ ys) h (k, hs) = (omega arith, All-le a x ys h hs)

  insert_by-IsSortedBy :
      (a : A) (xs : List A) → IsSortedBy key xs → IsSortedBy key (insert_by key a xs)
  unfolding insert_by
  insert_by-IsSortedBy a [] hs = (tt, tt)
  insert_by-IsSortedBy a (x ∷ xs) (k, hs) = elim (Bool-cases (leb (key a) (key x))) [
    | inl e ↦
        let h : key a ≤ key x = ground arith in rw (e, insert_by) ((h, All-le a x xs h k), (k, hs))
    | inr e ↦
        rw (e, insert_by)
          (insert_by-All (λ y. key x ≤ key y) a xs (ground arith) k, insert_by-IsSortedBy a xs hs)
  ]

  pub sort_by-IsSortedBy : (xs : List A) → IsSortedBy key (sort_by key xs)
  unfolding sort_by
  sort_by-IsSortedBy [] = tt
  sort_by-IsSortedBy (x ∷ xs) = insert_by-IsSortedBy x (sort_by key xs) (sort_by-IsSortedBy xs)
