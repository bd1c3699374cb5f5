-- ===== src/Freecell/FreeStacks.antt =====
-- fc_solve_sfs_move_sequences_to_free_stacks.
pub mod Recorded
use investigate_lack_of_pgo.Prelude.{
  ℕ, zero, suc, ◌+◌, ◌-◌, Bool, not, ◌&&◌, ◌==◌, leb, ltb, if◌then◌else◌, Option, some, List, [],
  length,
}
use investigate_lack_of_pgo.State.{State, Dims, Column}
use investigate_lack_of_pgo.Freecell.{
  Deriving, Derived, check_state_begin, check_state_end, copy_stack, move_sequence,
}
use investigate_lack_of_pgo.Freecell.Loops.{find_from, for_from, and_then}
use investigate_lack_of_pgo.Freecell.Empty.{
  EmptyTwoColsRet, next_put, empty_two_cols, col_is_empty, num_vacant_freecells, num_vacant_stacks,
}
use investigate_lack_of_pgo.Freecell.DifferentStacks.{
  calc_max_sequence_move, for_sequences, freecells_to_fill, freestacks_to_fill, all_relocated,
}

-- while ((max_sequence_len < cards_num - c) && (c > 0)) c--;
unfoldable pub lower_start : ℕ → ℕ → ℕ → ℕ
lower_start max_sequence_len cards_num zero = 0
lower_start max_sequence_len cards_num (suc c) =
    let lower = lower_start max_sequence_len cards_num c in
    if ltb max_sequence_len (cards_num - suc c) then lower else suc c

-- a sequence at the top of its column
unfoldable pub top_sequence : Dims → State → ℕ → ℕ → Option (List Derived)
unfolding lower_start find_from move_sequence
top_sequence d st stack_idx c =
    let cards_num = length (st.stacks stack_idx) in
    let max_sequence_len =
      calc_max_sequence_move (num_vacant_freecells d st) (num_vacant_stacks d st - 1) in
    let start = lower_start max_sequence_len cards_num c in
    let dest_stack_idx = find_from (col_is_empty st) 0 d.stacks_num in
    if not (start == 0)
    then check_state_end
        (move_sequence (copy_stack (copy_stack (check_state_begin st) dest_stack_idx) stack_idx)
          dest_stack_idx stack_idx start (cards_num - 1))
        0
    else some []

-- the first card of the sequence that moves: no more cards than can move, and none from under it
unfoldable pub seq_start_of : Dims → State → ℕ → ℕ → ℕ → ℕ
unfolding freecells_to_fill freestacks_to_fill
seq_start_of d st num c seq_end =
    let max_seq_move =
      calc_max_sequence_move (num_vacant_freecells d st - freecells_to_fill d st num)
        (num_vacant_stacks d st - freestacks_to_fill d st num - 1) in
    let m = seq_end + 1 - max_seq_move in if ltb m c then c else m

-- the sequence to the first vacant column, when the cards above it have moved
unfoldable pub to_vacant_column :
    Dims → ℕ → ℕ → ℕ → Deriving × EmptyTwoColsRet → Option (List Derived)
unfolding find_from move_sequence
to_vacant_column d stack_idx seq_start seq_end (x, ret) =
    let b = find_from (col_is_empty x.st) (next_put ret) (d.stacks_num - next_put ret) in
    check_state_end (move_sequence (copy_stack x b) b stack_idx seq_start seq_end) 0

-- a sequence with cards above it
unfoldable pub covered_sequence : Dims → State → ℕ → ℕ → ℕ → Option (List Derived)
unfolding freecells_to_fill freestacks_to_fill all_relocated seq_start_of empty_two_cols
    to_vacant_column
covered_sequence d st stack_idx c seq_end =
    let num = length (st.stacks stack_idx) - seq_end - 1 in
    let seq_start = seq_start_of d st num c seq_end in
    if all_relocated d st num
      && (ltb 0 (num_vacant_stacks d st - freestacks_to_fill d st num) && leb seq_start seq_end)
    then and_then
        (empty_two_cols d (copy_stack (check_state_begin st) stack_idx) stack_idx 0
          (freecells_to_fill d st num + freestacks_to_fill d st num) 0)
        (to_vacant_column d stack_idx seq_start seq_end)
    else some []

-- the body of the loop over the sequences
unfoldable pub sequence_to_free_stack : Dims → State → ℕ → ℕ → ℕ → Option (List Derived)
unfolding top_sequence covered_sequence
sequence_to_free_stack d st stack_idx c seq_end =
    if seq_end == length (st.stacks stack_idx) - 1
    then top_sequence d st stack_idx c
    else covered_sequence d st stack_idx c seq_end

-- fc_solve_sfs_move_sequences_to_free_stacks
unfoldable pub move_sequences_to_free_stacks : Dims → State → Option (List Derived)
unfolding sequence_to_free_stack for_sequences for_from
move_sequences_to_free_stacks d st =
    if num_vacant_stacks d st == 0
    then some []
    else for_from 0 d.stacks_num (λ stack_idx.
      let col = st.stacks stack_idx in
      for_sequences (length col) col 0 (sequence_to_free_stack d st stack_idx))
