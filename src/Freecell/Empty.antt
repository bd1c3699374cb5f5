-- ===== src/Freecell/Empty.antt =====
-- empty_two_cols_from_new_state: the top cards of one or two columns go to vacant freecells, and to
-- vacant columns when there are no more of these.
pub mod Progress
pub mod ToFreecells
pub mod ToColumns
pub mod Emptied
pub mod TwoCols
pub mod Landed
use investigate_lack_of_pgo.Prelude.{
  ℕ, zero, suc, ◌+◌, ◌-◌, Bool, ◌==◌, ltb, if◌then◌else◌, Option, some, none, List, [], ◌∷◌, ◌++◌,
  length,
}
use investigate_lack_of_pgo.State.{State, Dims}
use investigate_lack_of_pgo.Freecell.{
  Deriving, freecell_is_empty, copy_stack, column_to_freecell, column_to_column,
}
use investigate_lack_of_pgo.Freecell.Loops.{find_from, count_from}

abbrev pub col_is_empty : State → ℕ → Bool
col_is_empty st i = length (st.stacks i) == 0

-- empty_two_cols_ret_t: where the last card went, `nowhere` for the index -1
pub data EmptyTwoColsRet : Type 0 where
  nowhere : EmptyTwoColsRet
  to_freecell : ℕ → EmptyTwoColsRet
  to_column : ℕ → EmptyTwoColsRet

-- the index from which the next vacant column is sought, the start of the loop for `b` in
-- fc_solve_sfs_move_sequences_to_free_stacks
abbrev pub next_put : EmptyTwoColsRet → ℕ
next_put (to_column i) = i + 1
next_put _ = 0

-- the column that each card comes from: `col` for as many cards as are to move from it
abbrev pub times : ℕ → ℕ → List ℕ
times zero col = []
times (suc num) col = col ∷ times num col

-- The loop over the freecells, with the columns of the cards that it leaves.
unfoldable pub to_freecells :
    Dims → Deriving → ℕ → EmptyTwoColsRet → List ℕ → Deriving × EmptyTwoColsRet × List ℕ
unfolding find_from
to_freecells d x dest_fc_idx ret [] = (x, ret, [])
to_freecells d x dest_fc_idx ret (col_idx ∷ cols) =
    let dest = find_from (freecell_is_empty x.st) dest_fc_idx (d.freecells_num - dest_fc_idx) in
    let rest =
      to_freecells d (column_to_freecell x col_idx dest) (dest + 1) (to_freecell dest) cols in
    if ltb dest d.freecells_num then rest else (x, ret, col_idx ∷ cols)

-- The loop over the columns; its `assert` fails where there is no vacant column.
unfoldable pub to_columns :
    Dims → Deriving → ℕ → EmptyTwoColsRet → List ℕ → Option (Deriving × EmptyTwoColsRet)
unfolding find_from column_to_column
to_columns d x put_cards_in_col_idx ret [] = some (x, ret)
to_columns d x put_cards_in_col_idx ret (col_idx ∷ cols) =
    let dest =
      find_from (col_is_empty x.st) put_cards_in_col_idx (d.stacks_num - put_cards_in_col_idx) in
    let rest =
      to_columns d (column_to_column (copy_stack x dest) col_idx dest) (dest + 1) (to_column dest)
        cols in
    if ltb dest d.stacks_num then rest else none

-- empty_two_cols_from_new_state
unfoldable pub empty_two_cols :
    Dims → Deriving → ℕ → ℕ → ℕ → ℕ → Option (Deriving × EmptyTwoColsRet)
unfolding to_freecells to_columns
empty_two_cols d x col_1 col_2 num_cards_1 num_cards_2 =
    let (y, ret, left) =
      to_freecells d x 0 nowhere (times num_cards_1 col_1 ++ times num_cards_2 col_2) in
    to_columns d y 0 ret left

-- count_num_vacant_freecells, which the scan keeps in its num_vacant_freecells
abbrev pub num_vacant_freecells : Dims → State → ℕ
num_vacant_freecells d st = count_from (freecell_is_empty st) 0 d.freecells_num

-- count_num_vacant_stacks, kept in num_vacant_stacks
abbrev pub num_vacant_stacks : Dims → State → ℕ
num_vacant_stacks d st = count_from (col_is_empty st) 0 d.stacks_num

-- calc_num_vacant_slots
abbrev pub calc_num_vacant_slots : Dims → State → ℕ
calc_num_vacant_slots d st = num_vacant_freecells d st + num_vacant_stacks d st
