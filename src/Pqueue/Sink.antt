-- ===== src/Pqueue/Sink.antt =====
-- The loop of fc_solve_pq_pop ends, and leaves a place for the last element.
use investigate_lack_of_pgo.Prelude.{
  ℕ, zero, suc, ◌+◌, ◌*◌, ◌/◌, ◌≤◌, ◌<◌, ◌≡◌, ◌≢◌, refl, ◌∙◌, ◌⊎◌, update, arith, some, Bool-cases,
  inl, inr, leb, leb→le,
}
use investigate_lack_of_pgo.Prelude.Int.{ℤ, ◌≤ℤ◌, ltb_ℤ}
use investigate_lack_of_pgo.Pqueue.{Element, greater_child, sift_down}
use investigate_lack_of_pgo.Pqueue.Cells.{IsHeap}
use investigate_lack_of_pgo.Pqueue.Push.{Settled, tally-raise}

module _ {V : Type 0} where
  -- A heap with a hole at `i` that an element of rating `r` may fill as far as the parent goes.
  pub record Sinking (n i : ℕ) (r : ℤ) (e : ℕ → Element V) : Type 0 where
    pub positive : 1 ≤ i
    pub inside : i ≤ n
    pub edges : (j : ℕ) → 2 ≤ j → j ≤ n → j ≢ i → j / 2 ≢ i → (e j).rating ≤ℤ (e (j / 2)).rating
    pub above : 2 ≤ i → r ≤ℤ (e (i / 2)).rating
    pub bridged : (j : ℕ) → 2 ≤ i → j ≤ n → j / 2 ≡ i → (e j).rating ≤ℤ (e (i / 2)).rating

  -- a child of `i` that no child of `i` exceeds
  record IsGreatestChild (n i : ℕ) (e : ℕ → Element V) (c : ℕ) : Type 0 where
    pub inside : c ≤ n
    parent : c / 2 ≡ i
    larger : i < c
    greatest : (j : ℕ) → j ≤ n → j / 2 ≡ i → (e j).rating ≤ℤ (e c).rating

  greater_child_lem :
      (e : ℕ → Element V) (i n : ℕ)
      → 1 ≤ i
      → 2 * i ≤ n
      → IsGreatestChild n i e (greater_child e i n)
  unfolding greater_child
  greater_child_lem e i n p h = record {
    inside = ground arith;
    parent = ground arith;
    larger = ground arith;
    greatest = λ j a b. let either : (j ≡ 2 * i) ⊎ (j ≡ 2 * i + 1) = omega arith in ground arith;
  }

  sink-Sinking :
      (n i c : ℕ) (r : ℤ) (e : ℕ → Element V)
      → Sinking n i r e
      → IsGreatestChild n i e c
      → r ≤ℤ (e c).rating
      → Sinking n c r (update e i (e c))
  sink-Sinking n i c r e v g h = record {
    positive = omega (arith, g.larger);
    inside = g.inside;
    edges =
        λ j a b x y. ground (arith, v.edges j a b, v.bridged c, g.greatest j b, g.parent, g.inside);
    above = λ a. ground (arith, g.parent);
    bridged = λ j a b x. ground (arith, v.edges j, g.parent, g.larger);
  }

  filled-IsHeap :
      (n i : ℕ) (x : Element V) (e : ℕ → Element V)
      → Sinking n i x.rating e
      → ((j : ℕ) → j ≤ n → j / 2 ≡ i → (e j).rating ≤ℤ x.rating)
      → IsHeap n (update e i x)
  filled-IsHeap n i x e v low j a b = ground (arith, v.edges j a b, low j b, v.above)

  Settled-here :
      (n i : ℕ) (x : Element V) (e : ℕ → Element V)
      → Sinking n i x.rating e
      → ((j : ℕ) → j ≤ n → j / 2 ≡ i → (e j).rating ≤ℤ x.rating)
      → Settled n i x e (e, i)
  Settled-here n i x e v low = record {
    positive = v.positive;
    inside = v.inside;
    heap = filled-IsHeap n i x e v low;
    same = λ weight. refl;
  }

  pub sift_down_lem :
      (fuel n i : ℕ) (x : Element V) (e : ℕ → Element V)
      → n < fuel + i
      → Sinking n i x.rating e
      → (out : (ℕ → Element V) × ℕ) × (sift_down fuel e i n x.rating ≡ some out)
        × Settled n i x e out
  unfolding sift_down
  sift_down_lem zero n i x e f v = absurd (omega (arith, v.inside))
  sift_down_lem (suc fuel) n i x e f v = elim (Bool-cases (leb (2 * i) n)) [
    | inr leaf ↦ ((e, i), rw leaf, Settled-here n i x e v (λ j a b. absurd (ground arith)))
    | inl inner ↦
        let c = greater_child e i n in
        let g = greater_child_lem e i n v.positive (leb→le _ _ inner) in
        elim (Bool-cases (ltb_ℤ x.rating (e c).rating)) [
          | inr stay ↦ (
            (e, i),
            rw (inner, stay),
            Settled-here n i x e v (λ j a b. ground (arith, g.greatest j a b)),
          )
          | inl sink ↦
              let (out, found, s) =
                sift_down_lem fuel n c x (update e i (e c)) (omega (arith, g.larger))
                  (sink-Sinking n i c x.rating e v g (ground arith)) in
              (
                out,
                rw (inner, sink) found,
                record {
                  positive = s.positive;
                  inside = s.inside;
                  heap = s.heap;
                  same = λ weight.
                      s.same weight
                      ∙ tally-raise weight n i c x e v.positive v.inside (omega (arith, g.larger))
                          g.inside (omega (arith, g.larger));
                },
              )
        ]
  ]
