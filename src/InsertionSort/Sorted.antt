-- ===== src/InsertionSort/Sorted.antt =====
-- The sort orders the cells and loses none.
use investigate_lack_of_pgo.Prelude.{
  ℕ, zero, suc, ◌+◌, ◌-◌, ◌≤◌, ◌<◌, ◌≡◌, ◌≢◌, refl, ◌∙◌, false, swap_cells, arith, sum_below,
  sum_below-swap, Bool-cases, inl, inr,
}
use investigate_lack_of_pgo.InsertionSort.{Order, sink_back, sort_rounds, insertion_sort}

module _ {ℓ} {A : Type ℓ} (o : Order A) where
  -- No cell among the first `n` comes before its left neighbour.
  abbrev pub IsSorted : ℕ → (ℕ → A) → Type 0
  IsSorted n f = (i : ℕ) → suc i < n → o.less (f (suc i)) (f i) ≡ false

  -- Sorted up to `b`, but for the cell `c` on its way down.
  record Sinking (b c : ℕ) (f : ℕ → A) : Type 0 where
    edges : (i : ℕ) → i < b → suc i ≢ c → o.less (f (suc i)) (f i) ≡ false
    bridged : (i : ℕ) → c < b → suc i ≡ c → o.less (f (suc c)) (f i) ≡ false

  sink_back-edges :
      (b c : ℕ) (f : ℕ → A)
      → c ≤ b
      → Sinking b c f
      → (i : ℕ) → i < b
      → o.less (sink_back o c f (suc i)) (sink_back o c f i) ≡ false
  unfolding sink_back
  sink_back-edges b zero f h s i p = s.edges i p (λ e. omega arith)
  sink_back-edges b (suc c) f h s i p = elim (Bool-cases (o.less (f (suc c)) (f c))) [
    | inl down ↦ rw down (
        sink_back-edges b c (swap_cells f (suc c) c) (omega arith)
          (record {
            edges = λ j q ne.
                ground (arith, s.edges j q, s.bridged c, o.less_asymm (f (suc c)) (f c) down);
            bridged = λ j q e. ground (arith, s.edges j);
          })
          i p)
    | inr stay ↦ rw stay (ground (arith, s.edges i p))
  ]

  sink_back-outside : (c : ℕ) (f : ℕ → A) (i : ℕ) → c < i → sink_back o c f i ≡ f i
  unfolding sink_back
  sink_back-outside zero f i h = refl
  sink_back-outside (suc c) f i h = ground (arith, sink_back-outside c (swap_cells f (suc c) c) i)

  sink_back-tally :
      (weight : A → ℕ) (n c : ℕ) (f : ℕ → A)
      → c < n
      → sum_below n (λ i. weight (sink_back o c f i)) ≡ sum_below n (λ i. weight (f i))
  unfolding sink_back
  sink_back-tally weight n zero f h = refl
  sink_back-tally weight n (suc c) f h = elim (Bool-cases (o.less (f (suc c)) (f c))) [
    | inl down ↦ rw down (
        sink_back-tally weight n c (swap_cells f (suc c) c) (omega arith)
        ∙ sum_below-swap weight n f (suc c) c h (omega arith))
    | inr stay ↦ rw stay
  ]

  sort_rounds-IsSorted :
      (rounds b n : ℕ) (f : ℕ → A)
      → b + rounds ≡ n
      → IsSorted b f
      → 1 ≤ b
      → IsSorted n (sort_rounds o rounds b f)
  unfolding sort_rounds
  sort_rounds-IsSorted zero b n f e s p = λ i h. s i (omega arith)
  sort_rounds-IsSorted (suc rounds) b n f e s p =
      sort_rounds-IsSorted rounds (b + 1) n (sink_back o b f) (omega arith)
        (λ i h.
          sink_back-edges b b f (omega arith)
            (record {
              edges = λ j q ne. s j (omega arith);
              bridged = λ j q e. absurd (omega arith);
            })
            i (omega arith))
        (omega arith)

  -- The insertion sort orders its cells.
  pub insertion_sort-IsSorted : (n : ℕ) (f : ℕ → A) → IsSorted n (insertion_sort o n f)
  unfolding insertion_sort
  insertion_sort-IsSorted zero f = λ i h. absurd (omega arith)
  insertion_sort-IsSorted (suc n) f =
      sort_rounds-IsSorted (suc n - 1) 1 (suc n) f (omega arith) (λ i h. absurd (omega arith))
        (omega arith)

  sort_rounds-tally :
      (weight : A → ℕ) (rounds b n : ℕ) (f : ℕ → A)
      → b + rounds ≤ n
      → sum_below n (λ i. weight (sort_rounds o rounds b f i)) ≡ sum_below n (λ i. weight (f i))
  unfolding sort_rounds
  sort_rounds-tally weight zero b n f h = refl
  sort_rounds-tally weight (suc rounds) b n f h =
      sort_rounds-tally weight rounds (b + 1) n (sink_back o b f) (omega arith)
      ∙ sink_back-tally weight n b f (omega arith)

  -- It holds the same cells as before, each as often: every weight sums up to the same.
  pub insertion_sort-tally :
      (weight : A → ℕ) (n : ℕ) (f : ℕ → A)
      → sum_below n (λ i. weight (insertion_sort o n f i)) ≡ sum_below n (λ i. weight (f i))
  unfolding insertion_sort sum_below
  insertion_sort-tally weight zero f = refl
  insertion_sort-tally weight (suc n) f =
      sort_rounds-tally weight (suc n - 1) 1 (suc n) f (omega arith)
