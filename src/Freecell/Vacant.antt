-- ===== src/Freecell/Vacant.antt =====
-- The tests that move a freecell's card to a vacant column, and a column's cards to the freecells.
use investigate_lack_of_pgo.Prelude.{
  ℕ, zero, suc, ◌+◌, ◌-◌, not, ◌==◌, leb, if◌then◌else◌, Option, some, List, [], length,
}
use investigate_lack_of_pgo.State.{State, Dims}
use investigate_lack_of_pgo.Freecell.{
  Deriving, Derived, card_is_valid, freecell_is_empty, check_state_begin, check_state_end,
  copy_stack, column_to_freecell, freecell_to_column,
}
use investigate_lack_of_pgo.Freecell.Loops.{find_from, for_from}
use investigate_lack_of_pgo.Freecell.Empty.{col_is_empty, num_vacant_freecells, num_vacant_stacks}

-- the body of the loop over the freecells
unfoldable pub freecell_card_to_column : State → ℕ → ℕ → Option (List Derived)
freecell_card_to_column st stack_idx fc =
    if card_is_valid (st.freecells fc)
    then check_state_end
        (freecell_to_column (copy_stack (check_state_begin st) stack_idx) (st.freecells fc) fc
          stack_idx)
        0
    else some []

-- fc_solve_sfs_move_freecell_cards_to_empty_stack
unfoldable pub move_freecell_cards_to_empty_stack : Dims → State → Option (List Derived)
unfolding freecell_card_to_column find_from for_from
move_freecell_cards_to_empty_stack d st =
    let stack_idx = find_from (col_is_empty st) 0 d.stacks_num in
    if not (num_vacant_stacks d st == 0)
    then for_from 0 d.freecells_num (freecell_card_to_column st stack_idx)
    else some []

-- the loop over the cards of the column, with the first freecell to look at
unfoldable pub fill_freecells : Dims → Deriving → ℕ → ℕ → ℕ → Deriving
unfolding find_from
fill_freecells d x stack_idx b zero = x
fill_freecells d x stack_idx b (suc rounds) =
    let dest = find_from (freecell_is_empty x.st) b (d.freecells_num - b) in
    fill_freecells d (column_to_freecell x stack_idx dest) stack_idx (dest + 1) rounds

-- the body of the loop over the columns
unfoldable pub column_into_freecells : Dims → State → ℕ → Option (List Derived)
unfolding fill_freecells
column_into_freecells d st stack_idx =
    let cards_num = length (st.stacks stack_idx) in
    if leb cards_num (num_vacant_freecells d st)
    then check_state_end
        (fill_freecells d (copy_stack (check_state_begin st) stack_idx) stack_idx 0 cards_num) 0
    else some []

-- fc_solve_sfs_empty_stack_into_freecells
unfoldable pub empty_stack_into_freecells : Dims → State → Option (List Derived)
unfolding column_into_freecells for_from
empty_stack_into_freecells d st =
    if num_vacant_stacks d st == 0
    then for_from 0 d.stacks_num (column_into_freecells d st)
    else some []
