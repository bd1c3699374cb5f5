-- ===== src/Solution/Follow.antt =====
-- A state that follows another one through locations: the same columns and freecells at the places
-- that the locations give.
use investigate_lack_of_pgo.Prelude.{
  ℕ, ◌+◌, ◌<◌, ◌≡◌, refl, ◌∙◌, ap, arith, update, Bool-cases, inl, inr, ◌==◌, sum_below_cong,
}
use investigate_lack_of_pgo.Card.{Card}
use investigate_lack_of_pgo.State.{
  Column, State, Dims, set_col, put_card_in_freecell, increment_foundation,
}
use investigate_lack_of_pgo.State.Orders.{card_order, stack_order}
use investigate_lack_of_pgo.State.Canonize.{Locs, canonize_with_locs, init_locs, SameUpToOrder}
use investigate_lack_of_pgo.InsertionSort.Locations.{insertion_sort_locs-Tracks}
use investigate_lack_of_pgo.InsertionSort.Places.{IsPlaces, IsPlaces-differ}

pub record Follows (d : Dims) (user dynamic : State) (l : Locs) : Type 0 where
  pub columns : (i : ℕ) → i < d.stacks_num → dynamic.stacks i ≡ user.stacks (l.stack_locs i)
  pub cells : (i : ℕ) → i < d.freecells_num → dynamic.freecells i ≡ user.freecells (l.fc_locs i)
  pub foundations : dynamic.foundations ≡ user.foundations
  pub stack_places : IsPlaces d.stacks_num l.stack_locs
  pub fc_places : IsPlaces d.freecells_num l.fc_locs

module _ (d : Dims) (u s : State) (l : Locs) (f : Follows d u s l) where
  pub set_col-Follows :
      (i : ℕ) (a b : Column)
      → i < d.stacks_num
      → a ≡ b
      → Follows d (set_col u (l.stack_locs i) a) (set_col s i b) l
  set_col-Follows i a b h e = record {
    columns = λ j k. elim (Bool-cases (i == j)) [
      | inl same ↦ let at : i ≡ j = ground arith in ground (arith, e, ap l.stack_locs at)
      | inr other ↦
          let apart =
            IsPlaces-differ d.stacks_num l.stack_locs f.stack_places i j h k (ground arith) in
          ground (arith, apart, f.columns j k)
    ];
    cells = f.cells;
    foundations = f.foundations;
    stack_places = f.stack_places;
    fc_places = f.fc_places;
  }

  pub put_card-Follows :
      (i : ℕ) (a b : Card)
      → i < d.freecells_num
      → a ≡ b
      → Follows d (put_card_in_freecell u (l.fc_locs i) a) (put_card_in_freecell s i b) l
  put_card-Follows i a b h e = record {
    columns = f.columns;
    cells = λ j k. elim (Bool-cases (i == j)) [
      | inl same ↦ let at : i ≡ j = ground arith in ground (arith, e, ap l.fc_locs at)
      | inr other ↦
          let apart =
            IsPlaces-differ d.freecells_num l.fc_locs f.fc_places i j h k (ground arith) in
          ground (arith, apart, f.cells j k)
    ];
    foundations = f.foundations;
    stack_places = f.stack_places;
    fc_places = f.fc_places;
  }

  pub increment-Follows :
      (i : ℕ) → Follows d (increment_foundation u i) (increment_foundation s i) l
  increment-Follows i = record {
    columns = f.columns;
    cells = f.cells;
    foundations = ap (λ g. update g i (g i + 1)) f.foundations;
    stack_places = f.stack_places;
    fc_places = f.fc_places;
  }

  -- Canonizing moves the locations along.
  pub canonize_with_locs-Follows :
      Follows d u (canonize_with_locs d s l).0 (canonize_with_locs d s l).1
  unfolding canonize_with_locs
  canonize_with_locs-Follows =
      let cols =
        insertion_sort_locs-Tracks stack_order d.stacks_num
          (record { cells = s.stacks; locs = l.stack_locs }) in
      let fcs =
        insertion_sort_locs-Tracks card_order d.freecells_num
          (record { cells = s.freecells; locs = l.fc_locs }) in
      record {
        columns = cols.follows u.stacks f.columns;
        cells = fcs.follows u.freecells f.cells;
        foundations = f.foundations;
        stack_places = λ w. cols.same_locs w ∙ f.stack_places w;
        fc_places = λ w. fcs.same_locs w ∙ f.fc_places w;
      }

  -- A state that follows another one has the same columns and freecells in some order.
  pub Follows-SameUpToOrder : SameUpToOrder d s u
  Follows-SameUpToOrder = record {
    columns = λ w.
        sum_below_cong d.stacks_num (λ i. w (s.stacks i)) (λ i. w (u.stacks (l.stack_locs i)))
          (λ i h. ap w (f.columns i h))
        ∙ f.stack_places (λ i. w (u.stacks i));
    cards = λ w.
        sum_below_cong d.freecells_num (λ i. w (s.freecells i)) (λ i. w (u.freecells (l.fc_locs i)))
          (λ i h. ap w (f.cells i h))
        ∙ f.fc_places (λ i. w (u.freecells i));
  }

pub init_locs-Follows : (d : Dims) (s : State) → Follows d s s init_locs
unfolding init_locs
init_locs-Follows d s = record {
  columns = λ i h. refl;
  cells = λ i h. refl;
  foundations = refl;
  stack_places = λ w. refl;
  fc_places = λ w. refl;
}
