-- ===== src/Pqueue.antt =====
-- pqueue.h: the priority queue of the best-first scans, a binary heap in an array whose root is
-- cell 1, with the greatest rating on top. Values are pointers to states: of any type here.
pub mod Cells
pub mod Push
pub mod Sink
pub mod Pop
mod Tests
use investigate_lack_of_pgo.Prelude.{
  ℕ, zero, suc, ◌+◌, ◌-◌, ◌*◌, ◌/◌, ◌^◌, ◌≤◌, Bool, Option, some, none, update, ltb, leb, ◌==◌, not,
  ◌&&◌, if◌then◌else◌,
}
use investigate_lack_of_pgo.Prelude.Int.{ℤ, pos, ltb_ℤ}
use mathlib.Core.Option

-- pq_element_t
pub record Element (V : Type 0) : Type 0 where
  pub val : V
  pub rating : ℤ

-- FC_SOLVE_PQUEUE_MaxRating, INT_MAX
abbrev pub max_rating : ℤ
max_rating = pos (2 ^ 31 - 1)

module _ {V : Type 0} where
  -- the loop of fc_solve_pq_push: the cells, with a hole at `i`, and where the hole ends
  pub sift_up : ℕ → (ℕ → Element V) → ℕ → ℤ → Option ((ℕ → Element V) × ℕ)
  sift_up zero e i r = none
  sift_up (suc fuel) e i r =
      let above = if i == 1 then max_rating else (e (i / 2)).rating in
      let rest = sift_up fuel (update e i (e (i / 2))) (i / 2) r in
      if ltb_ℤ above r then rest else some (e, i)

  -- the greater child of `i`, where cell `2 * i` is one of the `n` in use
  pub greater_child : (ℕ → Element V) → ℕ → ℕ → ℕ
  greater_child e i n =
      let child = 2 * i in
      if not (child == n) && ltb_ℤ (e child).rating (e (child + 1)).rating then child + 1 else child

  -- the loop of fc_solve_pq_pop
  pub sift_down : ℕ → (ℕ → Element V) → ℕ → ℕ → ℤ → Option ((ℕ → Element V) × ℕ)
  sift_down zero e i n r = none
  sift_down (suc fuel) e i n r =
      let child = greater_child e i n in
      let rest = sift_down fuel (update e i (e child)) child n r in
      let sink = if ltb_ℤ r (e child).rating then rest else some (e, i) in
      if leb (2 * i) n then sink else some (e, i)

-- PQUEUE
pub record Pqueue (V : Type 0) : Type 0 where
  pub max_size : ℕ
  pub current_size : ℕ
  pub elements : ℕ → Element V

module _ {V : Type 0} where
  -- fc_solve_pq_init; what SMALLOC returns is the argument
  pub init : ℕ → (ℕ → Element V) → Pqueue V
  init max_size fresh = record { max_size = max_size; current_size = 0; elements = fresh }

  -- the end of fc_solve_pq_push: the element goes into the hole that is left
  abbrev pub finish_push : Pqueue V → V → ℤ → (ℕ → Element V) × ℕ → Pqueue V
  finish_push pq v r (e, hole) = record {
    max_size = if pq.current_size == pq.max_size then pq.max_size + 256 else pq.max_size;
    current_size = pq.current_size + 1;
    elements = update e hole (record { val = v; rating = r });
  }

  -- `none`: the model's fuel ran out. SREALLOC keeps the cells.
  pub push : Pqueue V → V → ℤ → Option (Pqueue V)
  unfolding sift_up
  push pq v r =
      let i = pq.current_size + 1 in Option.map (finish_push pq v r) (sift_up i pq.elements i r)

  pub is_empty : Pqueue V → Bool
  is_empty pq = pq.current_size == 0

  -- the end of fc_solve_pq_pop: the last element goes into the hole that is left
  abbrev pub finish_pop : Pqueue V → (ℕ → Element V) × ℕ → Pqueue V
  finish_pop pq (e, hole) = record pq {
    current_size = pq.current_size - 1;
    elements = update e hole (pq.elements pq.current_size);
  }

  -- the value, NULL from an empty queue, and the queue after
  pub pop : Pqueue V → Option (Option V × Pqueue V)
  unfolding is_empty sift_down greater_child
  pop pq =
      let last = pq.elements pq.current_size in
      let sifted = sift_down pq.current_size pq.elements 1 (pq.current_size - 1) last.rating in
      let popped = Option.map (λ out. (some (pq.elements 1).val, finish_pop pq out)) sifted in
      if is_empty pq then some (none, pq) else popped
