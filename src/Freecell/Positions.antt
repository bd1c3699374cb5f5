-- ===== src/Freecell/Positions.antt =====
-- scans.c's fc_solve_get_the_positions_by_rank_data__freecell_generator, for one deck: the cards of
-- the columns that another card may be put on, by rank and suit. A slot is a pair of bytes, column
-- and height, `none` for the bytes of -1; there are four to a rank (FCS_POS_BY_RANK_WIDTH is 8).
pub mod Placed
pub mod Parents
use investigate_lack_of_pgo.Prelude.{
  ℕ, zero, suc, ◌+◌, ◌-◌, ◌*◌, bit_and, bit_xor, Bool, not, if◌then◌else◌, Option, some, none, List,
  [], length, update,
}
use investigate_lack_of_pgo.Card.{Card, card_rank, card_suit}
use investigate_lack_of_pgo.State.{State, Dims, Column, col_get_card}
use investigate_lack_of_pgo.Freecell.{Derived, is_parent_card}
use investigate_lack_of_pgo.Freecell.Loops.{for_from}

abbrev pub Slots : Type 0
Slots = ℕ → Option (ℕ × ℕ)

-- the first slot of the card
unfoldable pub slot_of : Card → ℕ
unfolding card_rank card_suit
slot_of card = 4 * (card_rank card - 1) + card_suit card

-- the search for a slot that is not taken, four slots on each time, at most through the 13 ranks
unfoldable pub free_slot : Slots → ℕ → ℕ → ℕ
free_slot slots s zero = s
free_slot slots s (suc rounds) =
    let rest = free_slot slots (s + 4) rounds in elim (slots s) [ none ↦ s | some p ↦ rest ]

-- assign_dest_stack_and_col_ptr
unfoldable pub assign_dest_stack_and_col_ptr : Slots → ℕ → ℕ → Card → Slots
unfolding free_slot slot_of
assign_dest_stack_and_col_ptr slots dest_stack dest_col dest_card =
    update slots (free_slot slots (slot_of dest_card) 13) (some (dest_stack, dest_col))

-- the heights of one column from `dc` on, with `rounds` of them under the top card
unfoldable pub column_positions : Slots → ℕ → Column → ℕ → ℕ → Slots
unfolding assign_dest_stack_and_col_ptr is_parent_card
column_positions slots ds col dc zero =
    assign_dest_stack_and_col_ptr slots ds dc (col_get_card col dc)
column_positions slots ds col dc (suc rounds) =
    let dest_card = col_get_card col dc in
    let slots' =
      if not (is_parent_card (col_get_card col (dc + 1)) dest_card)
      then assign_dest_stack_and_col_ptr slots ds dc dest_card
      else slots in
    column_positions slots' ds col (dc + 1) rounds

-- the body of the loop over the columns
unfoldable pub stack_positions : State → Slots → ℕ → Slots
unfolding column_positions
stack_positions st slots ds =
    let col = st.stacks ds in
    elim (length col) [
      | zero ↦ slots
      | suc top_card_idx ↦ column_positions slots ds col 0 top_card_idx
    ]

-- the loop over the columns, from `ds` on
unfoldable pub positions_from : State → Slots → ℕ → ℕ → Slots
unfolding stack_positions
positions_from st slots ds zero = slots
positions_from st slots ds (suc rounds) =
    positions_from st (stack_positions st slots ds) (ds + 1) rounds

-- fc_solve_get_the_positions_by_rank_data__freecell_generator
unfoldable pub positions_by_rank : Dims → State → Slots
unfolding positions_from
positions_by_rank d st = positions_from st (λ s. none) 0 d.stacks_num

-- the slots of FCS_POS_IDX_TO_CHECK_START_LOOP, by the number of its round
unfoldable pub slot_to_check : Card → ℕ → ℕ
unfolding card_rank card_suit
slot_to_check card k = 4 * card_rank card + bit_and (bit_xor (card_suit card) 1) 1 + 2 * k

-- FCS_POS_IDX_TO_CHECK_START_LOOP, with the body for slots that are not -1
unfoldable pub check_positions :
    Slots → Card → (ℕ → ℕ → Option (List Derived)) → Option (List Derived)
unfolding for_from slot_to_check
check_positions slots card body =
    for_from 0 2
      (λ k. elim (slots (slot_to_check card k)) [ none ↦ some [] | some (ds, dc) ↦ body ds dc ])
