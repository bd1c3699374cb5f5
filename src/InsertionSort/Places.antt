-- ===== src/InsertionSort/Places.antt =====
-- Locations that are the places from zero on, each once: what moving locations around keeps.
use investigate_lack_of_pgo.Prelude.{
  ℕ, zero, suc, ◌+◌, ◌≤◌, ◌<◌, ◌≡◌, ◌≢◌, arith, ◌==◌, ltb, if◌then◌else◌, Bool-cases, inl, inr,
  sum_below, subst, sym,
}
use investigate_lack_of_pgo.InsertionSort.Canonical.{SameCells}

abbrev pub IsPlaces : ℕ → (ℕ → ℕ) → Type 0
IsPlaces n locs = SameCells n locs (λ i. i)

-- 1 at the value, 0 elsewhere
abbrev one_at : ℕ → ℕ → ℕ
one_at v i = if i == v then 1 else 0

one_at-count : (v n : ℕ) → sum_below n (λ i. one_at v i) ≡ (if ltb v n then 1 else 0)
unfolding sum_below
one_at-count v zero = ground arith
one_at-count v (suc n) = ground (arith, one_at-count v n)

pub sum_below-term : (g : ℕ → ℕ) (n i : ℕ) → i < n → g i ≤ sum_below n g
unfolding sum_below
sum_below-term g zero i h = absurd (omega arith)
sum_below-term g (suc n) i h = elim (Bool-cases (i == n)) [
  | inl e ↦
      let last : n ≡ i = ground arith in subst (λ k. g k ≤ sum_below (suc n) g) last (omega arith)
  | inr e ↦ ground (arith, sum_below-term g n i (ground arith))
]

-- two terms, the later one first
pub sum_below-two_terms : (g : ℕ → ℕ) (n i j : ℕ) → i < n → j < i → g i + g j ≤ sum_below n g
unfolding sum_below
sum_below-two_terms g zero i j h k = absurd (omega arith)
sum_below-two_terms g (suc n) i j h k = elim (Bool-cases (i == n)) [
  | inl e ↦
      let last : n ≡ i = ground arith in
      subst (λ q. g q + g j ≤ sum_below (suc n) g) last
        (omega (arith, sum_below-term g n j (omega (arith, last))))
  | inr e ↦ ground (arith, sum_below-two_terms g n i j (ground arith) k)
]

module _ (n : ℕ) (locs : ℕ → ℕ) (p : IsPlaces n locs) where
  pub IsPlaces-lt : (i : ℕ) → i < n → locs i < n
  IsPlaces-lt i h = ground (
    arith,
    p (one_at (locs i)),
    one_at-count (locs i) n,
    sum_below-term (λ k. one_at (locs i) (locs k)) n i h,
  )

  later_differs : (i j : ℕ) → i < n → j < i → locs i ≢ locs j
  later_differs i j h k e = ground (
    arith,
    p (one_at (locs i)),
    one_at-count (locs i) n,
    sum_below-two_terms (λ k. one_at (locs i) (locs k)) n i j h k,
  )

  pub IsPlaces-differ : (i j : ℕ) → i < n → j < n → i ≢ j → locs i ≢ locs j
  IsPlaces-differ i j h k ne e = elim (Bool-cases (ltb j i)) [
    | inl lt ↦ later_differs i j h (ground arith) e
    | inr ge ↦ later_differs j i k (ground arith) (sym e)
  ]
