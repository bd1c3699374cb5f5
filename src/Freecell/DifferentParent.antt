-- ===== src/Freecell/DifferentParent.antt =====
-- fc_solve_sfs_move_cards_to_a_different_parent.
pub mod Recorded
use investigate_lack_of_pgo.Prelude.{
  ℕ, zero, suc, ◌+◌, ◌-◌, Bool, not, ◌&&◌, ◌||◌, ◌==◌, leb, ltb, if◌then◌else◌, Option, some, List,
  [], length,
}
use investigate_lack_of_pgo.State.{State, Dims, Column, col_get_card}
use investigate_lack_of_pgo.Freecell.{
  Deriving, Derived, is_parent_card, check_state_begin, check_state_end, copy_stack, move_sequence,
}
use investigate_lack_of_pgo.Freecell.Loops.{for_from, and_then}
use investigate_lack_of_pgo.Freecell.Sort.{sorted_derived}
use investigate_lack_of_pgo.Freecell.Positions.{positions_by_rank, check_positions}
use investigate_lack_of_pgo.Freecell.Empty.{empty_two_cols}
use investigate_lack_of_pgo.Freecell.DifferentStacks.{
  freecells_to_fill, freestacks_to_fill, all_relocated, max_sequence_after, sequence_context,
}

-- The loop down a column for min_card_height, which is one less than `height` in its round; two is
-- added after the loop.
unfoldable pub min_card_height : Column → ℕ → ℕ
unfolding is_parent_card
min_card_height col zero = 1
min_card_height col (suc height) =
    let lower = min_card_height col height in
    if is_parent_card (col_get_card col (height + 1)) (col_get_card col height)
    then lower
    else height + 2

-- the body of the loop over the positions
unfoldable pub cards_to_parent : Dims → State → ℕ → ℕ → ℕ → ℕ → Option (List Derived)
unfolding is_parent_card freecells_to_fill freestacks_to_fill all_relocated max_sequence_after
    empty_two_cols move_sequence sequence_context
cards_to_parent d st stack_idx c ds dc =
    let cards_num = length (st.stacks stack_idx) in
    let dest_col = st.stacks ds in
    let dest_cards_num = length dest_col in
    let num = dest_cards_num - dc - 1 in
    let covered =
      ltb (dc + 1) dest_cards_num
      && is_parent_card (col_get_card dest_col (dc + 1)) (col_get_card dest_col dc) in
    if not (ds == stack_idx)
      && (not covered
          && (all_relocated d st num && leb (cards_num - c) (max_sequence_after d st num)))
    then and_then
        (empty_two_cols d (copy_stack (check_state_begin st) ds) ds 0
          (freestacks_to_fill d st num + freecells_to_fill d st num) 0)
        (λ out.
          check_state_end
            (move_sequence (copy_stack out.0 stack_idx) ds stack_idx c (cards_num - 1))
            (sequence_context stack_idx c ds dc))
    else some []

-- the body of the loop over the heights
unfoldable pub cards_to_parents : Dims → State → ℕ → ℕ → Option (List Derived)
unfolding cards_to_parent check_positions positions_by_rank
cards_to_parents d st stack_idx c =
    check_positions (positions_by_rank d st) (col_get_card (st.stacks stack_idx) c)
      (cards_to_parent d st stack_idx c)

-- the body of the loop over the columns
unfoldable pub column_to_parents : Dims → State → ℕ → Option (List Derived)
unfolding cards_to_parents min_card_height for_from
column_to_parents d st stack_idx =
    let col = st.stacks stack_idx in
    let cards_num = length col in
    let lowest = min_card_height col (cards_num - 1) in
    if ltb cards_num 2
    then some []
    else for_from lowest (cards_num - lowest) (cards_to_parents d st stack_idx)

-- fc_solve_sfs_move_cards_to_a_different_parent
unfoldable pub move_cards_to_a_different_parent : Dims → State → Option (List Derived)
unfolding column_to_parents for_from sorted_derived
move_cards_to_a_different_parent d st =
    sorted_derived (for_from 0 d.stacks_num (column_to_parents d st))
