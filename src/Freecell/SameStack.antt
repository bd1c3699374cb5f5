-- ===== src/Freecell/SameStack.antt =====
-- fc_solve_sfs_move_stack_cards_to_a_parent_on_the_same_stack.
pub mod Recorded
use investigate_lack_of_pgo.Prelude.{
  ℕ, ◌+◌, ◌-◌, ◌==◌, not, ◌&&◌, ◌||◌, leb, if◌then◌else◌, Option, some, none, List, [], length,
}
use investigate_lack_of_pgo.State.{State, Dims, col_get_card}
use investigate_lack_of_pgo.Freecell.{
  Deriving, Derived, is_parent_card, check_state_begin, check_state_end, copy_stack,
  column_to_column, freecell_to_column,
}
use investigate_lack_of_pgo.Freecell.Loops.{for_from, and_then}
use investigate_lack_of_pgo.Freecell.Empty.{
  EmptyTwoColsRet, nowhere, to_freecell, to_column, empty_two_cols, calc_num_vacant_slots,
}

-- The moved card, from where it went first, to column `ds`; for the index -1 the code would read in
-- front of the freecells.
unfoldable pub back_to_column : Deriving → EmptyTwoColsRet → ℕ → Option (List Derived)
unfolding column_to_column
back_to_column x nowhere ds = none
back_to_column x (to_column source) ds = check_state_end (column_to_column x source ds) 0
back_to_column x (to_freecell source) ds =
    check_state_end (freecell_to_column x (x.st.freecells source) source ds) 0

-- the body of the loop over the heights of the parents
unfoldable pub card_to_height : Dims → State → ℕ → ℕ → ℕ → Option (List Derived)
unfolding is_parent_card empty_two_cols back_to_column
card_to_height d st ds c dc =
    let col = st.stacks ds in
    let dest_card = col_get_card col dc in
    if is_parent_card (col_get_card col c) dest_card
      && (not (is_parent_card (col_get_card col (dc + 1)) dest_card)
          && leb (length col - (dc + 1)) (calc_num_vacant_slots d st))
    then and_then (empty_two_cols d (copy_stack (check_state_begin st) ds) ds 0 (length col - c) 0)
        (λ first.
          and_then (empty_two_cols d first.0 ds 0 (c - dc - 1) 0)
            (λ second. back_to_column second.0 first.1 ds))
    else some []

-- fc_solve_sfs_move_stack_cards_to_a_parent_on_the_same_stack
unfoldable pub move_stack_cards_to_a_parent_on_the_same_stack : Dims → State → Option (List Derived)
unfolding for_from card_to_height is_parent_card
move_stack_cards_to_a_parent_on_the_same_stack d st = for_from 0 d.stacks_num (λ stack_idx.
    let col = st.stacks stack_idx in
    for_from 0 (length col) (λ c.
      if (c == 0) || not (is_parent_card (col_get_card col c) (col_get_card col (c - 1)))
      then for_from 0 (c - 1) (card_to_height d st stack_idx c)
      else some []))
