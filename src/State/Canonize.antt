-- ===== src/State/Canonize.antt =====
-- fc_solve_canonize_state and fc_solve_canonize_state_with_locs.
use investigate_lack_of_pgo.Prelude.{ℕ, ◌<◌, ◌≡◌, refl, ◌↔◌}
use investigate_lack_of_pgo.State.{State, Dims}
use investigate_lack_of_pgo.State.Orders.{card_order, stack_order}
use investigate_lack_of_pgo.InsertionSort.{insertion_sort, insertion_sort_locs}
use investigate_lack_of_pgo.InsertionSort.Sorted.{IsSorted, insertion_sort-IsSorted}
use investigate_lack_of_pgo.InsertionSort.Canonical.{SameCells, insertion_sort_canonical}
use investigate_lack_of_pgo.InsertionSort.Locations.{insertion_sort_locs-Tracks}

unfoldable pub canonize : Dims → State → State
unfolding insertion_sort card_order stack_order
canonize d s = record s {
  stacks = insertion_sort stack_order d.stacks_num s.stacks;
  freecells = insertion_sort card_order d.freecells_num s.freecells;
}

-- fcs_state_locs_struct_t
pub record Locs : Type 0 where
  pub stack_locs : ℕ → ℕ
  pub fc_locs : ℕ → ℕ

-- fc_solve_init_locs
unfoldable pub init_locs : Locs
init_locs = record { stack_locs = λ i. i; fc_locs = λ i. i }

unfoldable pub canonize_with_locs : Dims → State → Locs → State × Locs
unfolding insertion_sort_locs card_order stack_order
canonize_with_locs d s locs =
    let cols =
      insertion_sort_locs stack_order d.stacks_num
        (record { cells = s.stacks; locs = locs.stack_locs }) in
    let fcs =
      insertion_sort_locs card_order d.freecells_num
        (record { cells = s.freecells; locs = locs.fc_locs }) in
    (
      record s { stacks = cols.cells; freecells = fcs.cells },
      record { stack_locs = cols.locs; fc_locs = fcs.locs },
    )

-- Two states that differ at most in the order of their columns and in that of their freecells.
pub record SameUpToOrder (d : Dims) (s t : State) : Type 0 where
  pub columns : SameCells d.stacks_num s.stacks t.stacks
  pub cards : SameCells d.freecells_num s.freecells t.freecells

-- Two states that agree cell by cell.
pub record SameLayout (d : Dims) (s t : State) : Type 0 where
  pub columns : (i : ℕ) → i < d.stacks_num → s.stacks i ≡ t.stacks i
  pub cards : (i : ℕ) → i < d.freecells_num → s.freecells i ≡ t.freecells i

-- Canonizing identifies exactly the states that have the same columns and the same cards in the
-- freecells, each as often, in whatever order.
pub canonize-SameLayout :
    (d : Dims) (s t : State) → SameLayout d (canonize d s) (canonize d t) ↔ SameUpToOrder d s t
unfolding canonize
canonize-SameLayout d s t =
    let cols = insertion_sort_canonical stack_order d.stacks_num s.stacks t.stacks in
    let fcs = insertion_sort_canonical card_order d.freecells_num s.freecells t.freecells in
    (
      λ same. record { columns = cols.0 same.columns; cards = fcs.0 same.cards },
      λ same. record { columns = cols.1 same.columns; cards = fcs.1 same.cards },
    )

-- A canonized state has its columns and its freecells in order.
pub canonize-IsSorted :
    (d : Dims) (s : State)
    → IsSorted stack_order d.stacks_num (canonize d s).stacks
      × IsSorted card_order d.freecells_num (canonize d s).freecells
unfolding canonize
canonize-IsSorted d s = (
  insertion_sort-IsSorted stack_order d.stacks_num s.stacks,
  insertion_sort-IsSorted card_order d.freecells_num s.freecells,
)

-- What canonizing with fresh locations gives: the canonized state, and for each of its columns and
-- freecells the place that it had, every place once.
pub record LocatedState (d : Dims) (s : State) (out : State × Locs) : Type 0 where
  pub same : out.0 ≡ canonize d s
  pub columns : (i : ℕ) → i < d.stacks_num → out.0.stacks i ≡ s.stacks (out.1.stack_locs i)
  pub cards : (i : ℕ) → i < d.freecells_num → out.0.freecells i ≡ s.freecells (out.1.fc_locs i)
  pub stack_places : SameCells d.stacks_num out.1.stack_locs (λ i. i)
  pub fc_places : SameCells d.freecells_num out.1.fc_locs (λ i. i)

-- From fresh locations, `fc_solve_canonize_state_with_locs` canonizes the state as
-- `fc_solve_canonize_state` does, and its locations give the place that each column and each freecell
-- had before, every place once.
pub canonize_with_locs-LocatedState :
    (d : Dims) (s : State) → LocatedState d s (canonize_with_locs d s init_locs)
unfolding canonize canonize_with_locs init_locs
canonize_with_locs-LocatedState d s =
    let cols =
      insertion_sort_locs-Tracks stack_order d.stacks_num
        (record { cells = s.stacks; locs = λ i. i }) in
    let fcs =
      insertion_sort_locs-Tracks card_order d.freecells_num
        (record { cells = s.freecells; locs = λ i. i }) in
    record {
      same = λ i. record {
        stacks = cols.same_cells i;
        freecells = fcs.same_cells i;
        foundations = s.foundations;
      };
      columns = cols.follows s.stacks (λ i h. refl);
      cards = fcs.follows s.freecells (λ i h. refl);
      stack_places = cols.same_locs;
      fc_places = fcs.same_locs;
    }

-- Whatever the locations, the state is canonized in the same way.
pub canonize_with_locs-same :
    (d : Dims) (s : State) (l : Locs) → (canonize_with_locs d s l).0 ≡ canonize d s
unfolding canonize canonize_with_locs
canonize_with_locs-same d s l =
    let cols =
      insertion_sort_locs-Tracks stack_order d.stacks_num
        (record { cells = s.stacks; locs = l.stack_locs }) in
    let fcs =
      insertion_sort_locs-Tracks card_order d.freecells_num
        (record { cells = s.freecells; locs = l.fc_locs }) in
    λ i. record {
      stacks = cols.same_cells i;
      freecells = fcs.same_cells i;
      foundations = s.foundations;
    }
