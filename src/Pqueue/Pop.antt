-- ===== src/Pqueue/Pop.antt =====
-- fc_solve_pq_pop takes out an element of the greatest rating and restores the heap order.
use investigate_lack_of_pgo.Prelude.{
  ℕ, zero, suc, ◌+◌, ◌-◌, ◌/◌, ◌≤◌, ◌<◌, ◌≡◌, refl, update, arith, ◌==◌, Option, some, none, false,
  Bool-cases, inl, inr, sum_below,
}
use investigate_lack_of_pgo.Prelude.Int.{ℤ, ◌≤ℤ◌}
use investigate_lack_of_pgo.Pqueue.{Element, Pqueue, sift_down, finish_pop, pop}
use investigate_lack_of_pgo.Pqueue.Cells.{tally, tally-update, IsHeap, IsValid}
use investigate_lack_of_pgo.Pqueue.Sink.{Sinking, sift_down_lem}

module _ {V : Type 0} where
  root_greatest_below :
      (k n : ℕ) (e : ℕ → Element V)
      → IsHeap n e
      → (j : ℕ) → j < k
      → 1 ≤ j
      → j ≤ n
      → (e j).rating ≤ℤ (e 1).rating
  root_greatest_below zero n e h j b p q = absurd (omega arith)
  root_greatest_below (suc k) n e h j b p q = elim (Bool-cases (j == 1)) [
    | inl one ↦ ground arith
    | inr more ↦
        let two : 2 ≤ j = ground arith in
        omega (
          arith,
          h j two q,
          root_greatest_below k n e h (j / 2) (omega arith) (omega arith) (omega arith),
        )
  ]

  -- The root of a heap has the greatest rating.
  pub root_greatest :
      (n : ℕ) (e : ℕ → Element V)
      → IsHeap n e
      → (j : ℕ) → 1 ≤ j
      → j ≤ n
      → (e j).rating ≤ℤ (e 1).rating
  root_greatest n e h j p q = root_greatest_below (suc j) n e h j (omega arith) p q

  -- What a pop from a queue that is not empty returns and leaves: an element of the greatest
  -- rating, and a valid queue of the others.
  pub record Popped (pq : Pqueue V) (out : Option V × Pqueue V) : Type 0 where
    pub top : Element V
    pub returned : out.0 ≡ some top.val
    pub greatest : (j : ℕ) → 1 ≤ j → j ≤ pq.current_size → (pq.elements j).rating ≤ℤ top.rating
    pub valid : IsValid out.1
    pub size : out.1.current_size + 1 ≡ pq.current_size
    pub same :
        (weight : Element V → ℕ)
        → tally weight out.1.current_size out.1.elements + weight top
          ≡ tally weight pq.current_size pq.elements

  root-Sinking : (n : ℕ) (r : ℤ) (e : ℕ → Element V) → IsHeap (suc n) e → 1 ≤ n → Sinking n 1 r e
  root-Sinking n r e h p = record {
    positive = omega arith;
    inside = p;
    edges = λ j a b c d. h j a (omega arith);
    above = λ a. absurd (omega arith);
    bridged = λ j a b c. absurd (omega arith);
  }

  -- The cells without the last one, which takes the root's place.
  tally-root :
      (weight : Element V → ℕ) (n : ℕ) (e : ℕ → Element V)
      → 1 ≤ n
      → tally weight n (update e 1 (e (suc n))) + weight (e 1) ≡ tally weight (suc n) e
  unfolding sum_below
  tally-root weight n e p = omega (arith, tally-update weight n e 1 (e (suc n)) (omega arith) p)

  sift-pop :
      (n : ℕ) (e : ℕ → Element V)
      → IsHeap (suc n) e
      → (out : (ℕ → Element V) × ℕ) × (sift_down (suc n) e 1 n (e (suc n)).rating ≡ some out)
        × IsHeap n (update out.0 out.1 (e (suc n)))
        × ((weight : Element V → ℕ)
            → tally weight n (update out.0 out.1 (e (suc n))) + weight (e 1)
              ≡ tally weight (suc n) e)
  unfolding sift_down sum_below
  sift-pop zero e h = ((e, 1), refl, λ j a b. absurd (omega arith), λ weight. refl)
  sift-pop (suc n) e h =
      let last = e (suc (suc n)) in
      let (out, found, s) =
        sift_down_lem (suc (suc n)) (suc n) 1 last e (omega arith)
          (root-Sinking (suc n) last.rating e h (omega arith)) in
      (
        out,
        found,
        s.heap,
        λ weight. omega (arith, s.same weight, tally-root weight (suc n) e (omega arith)),
      )

  sift-pop_size :
      (m : ℕ) (e : ℕ → Element V)
      → 1 ≤ m
      → IsHeap m e
      → (out : (ℕ → Element V) × ℕ) × (sift_down m e 1 (m - 1) (e m).rating ≡ some out)
        × IsHeap (m - 1) (update out.0 out.1 (e m))
        × ((weight : Element V → ℕ)
            → tally weight (m - 1) (update out.0 out.1 (e m)) + weight (e 1) ≡ tally weight m e)
  sift-pop_size zero e p h = absurd (omega arith)
  sift-pop_size (suc n) e p h =
      let shorter : suc n - 1 ≡ n = omega arith in rw shorter (sift-pop n e h)

  -- `fc_solve_pq_pop` on a valid queue with elements ends. It returns the value of an element that
  -- no other exceeds, and leaves a valid queue of exactly the other elements.
  pub pop-Popped :
      (pq : Pqueue V)
      → IsValid pq
      → 1 ≤ pq.current_size
      → (out : Option V × Pqueue V) × (pop pq ≡ some out) × Popped pq out
  unfolding pop
  pop-Popped pq v p =
      let (out, found, heap, same) = sift-pop_size pq.current_size pq.elements p v.heap in
      let filled : (pq.current_size == 0) ≡ false = ground arith in
      (
        (some (pq.elements 1).val, finish_pop pq out),
        rw filled (rw found),
        record {
          top = pq.elements 1;
          returned = refl;
          greatest = root_greatest pq.current_size pq.elements v.heap;
          valid = record { heap = heap; room = omega (arith, v.room) };
          size = omega arith;
          same = same;
        },
      )

  -- From an empty queue the pop returns NULL, and the queue stays.
  pub pop-empty : (pq : Pqueue V) → pq.current_size ≡ 0 → pop pq ≡ some (none, pq)
  unfolding pop
  pop-empty pq e = ground arith
