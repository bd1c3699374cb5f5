-- ===== src/Pqueue/Cells.antt =====
-- The heap order over the cells in use, and what they hold.
use investigate_lack_of_pgo.Prelude.{
  ℕ, zero, suc, ◌+◌, ◌/◌, ◌≤◌, ◌≡◌, update, sum_below, sum_below_cong, sum_below-update, arith,
}
use investigate_lack_of_pgo.Prelude.Int.{◌≤ℤ◌}
use investigate_lack_of_pgo.Pqueue.{Element, Pqueue}

module _ {V : Type 0} where
  -- `weight` summed over the cells 1 to n. Two queues hold the same elements, each as often, if
  -- they have the same sum for every weight.
  abbrev pub tally : (Element V → ℕ) → ℕ → (ℕ → Element V) → ℕ
  tally weight n e = sum_below n (λ j. weight (e (suc j)))

  pub tally-update :
      (weight : Element V → ℕ) (n : ℕ) (e : ℕ → Element V) (i : ℕ) (x : Element V)
      → 1 ≤ i
      → i ≤ n
      → tally weight n (update e i x) + weight (e i) ≡ tally weight n e + weight x
  tally-update weight n e zero x h k = absurd (omega arith)
  tally-update weight n e (suc i) x h k =
      rw
        (sum_below_cong n (λ j. weight (update e (suc i) x (suc j)))
          (λ j. weight (update (λ m. e (suc m)) i x j)) (λ j p. ground arith))
        (sum_below-update weight n (λ m. e (suc m)) i x k)

  -- No element is above its parent.
  abbrev pub IsHeap : ℕ → (ℕ → Element V) → Type 0
  IsHeap n e = (j : ℕ) → 2 ≤ j → j ≤ n → (e j).rating ≤ℤ (e (j / 2)).rating

  pub record IsValid (pq : Pqueue V) : Type 0 where
    pub heap : IsHeap pq.current_size pq.elements
    pub room : pq.current_size ≤ pq.max_size
