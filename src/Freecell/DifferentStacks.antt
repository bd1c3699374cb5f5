-- ===== src/Freecell/DifferentStacks.antt =====
-- fc_solve_sfs_move_stack_cards_to_different_stacks.
pub mod Recorded
pub mod Visits
use investigate_lack_of_pgo.Prelude.{
  ℕ, zero, suc, ◌+◌, ◌-◌, ◌*◌, ◌^◌, min, bit_or, Bool, not, ◌&&◌, ◌==◌, leb, ltb, if◌then◌else◌,
  Option, some, none, List, [], length,
}
use investigate_lack_of_pgo.Card.{card_rank}
use investigate_lack_of_pgo.State.{State, Dims, Column, col_get_card}
use investigate_lack_of_pgo.Freecell.{
  Deriving, Derived, is_parent_card, check_state_begin, check_state_end, copy_stack, move_sequence,
}
use investigate_lack_of_pgo.Freecell.Loops.{find_from, for_from, append_lists, and_then}
use investigate_lack_of_pgo.Freecell.Sort.{sorted_derived}
use investigate_lack_of_pgo.Freecell.Positions.{Slots, positions_by_rank, check_positions}
use investigate_lack_of_pgo.Freecell.Empty.{empty_two_cols, num_vacant_freecells, num_vacant_stacks}

-- calc_max_sequence_move
abbrev pub calc_max_sequence_move : ℕ → ℕ → ℕ
calc_max_sequence_move fc_num fs_num = (fc_num + 1) * 2 ^ fs_num

-- where the sequence that begins at height `c` ends
unfoldable pub seq_end_of : Column → ℕ → ℕ
unfolding find_from is_parent_card
seq_end_of col c =
    find_from (λ e. not (is_parent_card (col_get_card col (e + 1)) (col_get_card col e))) c
      (length col - 1 - c)

-- The loop over the sequences of a column, `for (c = 0; c < col_len; c = seq_end + 1)`, from height
-- `c` on; each takes a card at least, so that the column's length is fuel enough.
unfoldable pub for_sequences :
    ℕ → Column → ℕ → (ℕ → ℕ → Option (List Derived)) → Option (List Derived)
unfolding seq_end_of append_lists
for_sequences zero col c body = if ltb c (length col) then none else some []
for_sequences (suc fuel) col c body =
    let seq_end = seq_end_of col c in
    let rest = for_sequences fuel col (seq_end + 1) body in
    if ltb c (length col) then append_lists (body c seq_end) rest else some []

-- What fills the freecells and the vacant columns, of cards to relocate; whether no card is left,
-- and how many cards may then move as a sequence.
unfoldable pub freecells_to_fill : Dims → State → ℕ → ℕ
freecells_to_fill d st num = min num (num_vacant_freecells d st)

unfoldable pub freestacks_to_fill : Dims → State → ℕ → ℕ
unfolding freecells_to_fill
freestacks_to_fill d st num = min (num - freecells_to_fill d st num) (num_vacant_stacks d st)

unfoldable pub all_relocated : Dims → State → ℕ → Bool
unfolding freecells_to_fill freestacks_to_fill
all_relocated d st num = num - freecells_to_fill d st num - freestacks_to_fill d st num == 0

unfoldable pub max_sequence_after : Dims → State → ℕ → ℕ
unfolding freecells_to_fill freestacks_to_fill
max_sequence_after d st num =
    calc_max_sequence_move (num_vacant_freecells d st - freecells_to_fill d st num)
      (num_vacant_stacks d st - freestacks_to_fill d st num)

-- the state_context_value
unfoldable pub sequence_context : ℕ → ℕ → ℕ → ℕ → ℕ
sequence_context stack_idx c ds dc =
    bit_or (bit_or (bit_or (stack_idx * 2 ^ 8) c * 2 ^ 8) ds * 2 ^ 8) dc

-- the body of the loop over the positions
unfoldable pub sequence_to_stack : Dims → State → ℕ → ℕ → ℕ → ℕ → ℕ → Option (List Derived)
unfolding all_relocated max_sequence_after empty_two_cols move_sequence sequence_context
sequence_to_stack d st stack_idx c seq_end ds dc =
    let col_num_cards = length (st.stacks stack_idx) - 1 - seq_end in
    let dest_num_cards = length (st.stacks ds) - dc - 1 in
    let num_cards_to_relocate = dest_num_cards + col_num_cards in
    if not (ds == stack_idx)
      && (all_relocated d st num_cards_to_relocate
          && leb (seq_end - c + 1) (max_sequence_after d st num_cards_to_relocate))
    then and_then
        (empty_two_cols d (copy_stack (copy_stack (check_state_begin st) stack_idx) ds) ds stack_idx
          dest_num_cards col_num_cards)
        (λ out.
          check_state_end (move_sequence out.0 ds stack_idx c seq_end)
            (sequence_context stack_idx c ds dc))
    else some []

-- the body of the loop over the sequences
unfoldable pub sequence_to_stacks : Dims → State → ℕ → ℕ → ℕ → Option (List Derived)
unfolding sequence_to_stack check_positions positions_by_rank card_rank
sequence_to_stacks d st stack_idx c seq_end =
    let card = col_get_card (st.stacks stack_idx) c in
    if card_rank card == 13
    then some []
    else check_positions (positions_by_rank d st) card (sequence_to_stack d st stack_idx c seq_end)

-- fc_solve_sfs_move_stack_cards_to_different_stacks
unfoldable pub move_stack_cards_to_different_stacks : Dims → State → Option (List Derived)
unfolding sequence_to_stacks for_sequences for_from sorted_derived
move_stack_cards_to_different_stacks d st = sorted_derived (
    for_from 0 d.stacks_num (λ stack_idx.
      let col = st.stacks stack_idx in
      for_sequences (length col) col 0 (sequence_to_stacks d st stack_idx)))
