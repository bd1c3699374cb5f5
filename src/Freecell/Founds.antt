-- ===== src/Freecell/Founds.antt =====
-- The tests that move top cards of columns and cards of freecells to the foundations.
use investigate_lack_of_pgo.Prelude.{
  ℕ, ◌+◌, ◌-◌, ◌*◌, Bool, not, ◌==◌, ltb, if◌then◌else◌, Option, some, List, [], length,
}
use investigate_lack_of_pgo.Card.{Card, card_rank, card_suit}
use investigate_lack_of_pgo.State.{State, Dims, col_get_card}
use investigate_lack_of_pgo.Freecell.{
  Derived, card_is_valid, check_state_begin, check_state_end, copy_stack, column_to_foundation,
  freecell_to_foundation,
}
use investigate_lack_of_pgo.Freecell.Loops.{find_from, for_from}

-- fcs_foundation_value(state, deck*4+suit) == rank - 1
abbrev pub takes : State → Card → ℕ → Bool
takes st card deck = st.foundations (deck * 4 + card_suit card) + 1 == card_rank card

-- the body of the loop over the columns; the loop over the decks ends with the first that takes
unfoldable pub top_card_to_founds : Dims → State → ℕ → Option (List Derived)
unfolding find_from
top_card_to_founds d st stack_idx =
    let col = st.stacks stack_idx in
    let cards_num = length col in
    let card = col_get_card col (cards_num - 1) in
    let deck = find_from (takes st card) 0 d.decks_num in
    if not (cards_num == 0)
    then if ltb deck d.decks_num
      then check_state_end
          (column_to_foundation (copy_stack (check_state_begin st) stack_idx) stack_idx
            (deck * 4 + card_suit card))
          0
      else some []
    else some []

-- fc_solve_sfs_move_top_stack_cards_to_founds
unfoldable pub move_top_stack_cards_to_founds : Dims → State → Option (List Derived)
unfolding top_card_to_founds for_from
move_top_stack_cards_to_founds d st = for_from 0 d.stacks_num (top_card_to_founds d st)

-- the body of the loop over the freecells
unfoldable pub freecell_card_to_founds : Dims → State → ℕ → Option (List Derived)
unfolding for_from
freecell_card_to_founds d st fc =
    let card = st.freecells fc in
    if card_is_valid card
    then for_from 0 d.decks_num (λ deck.
      if takes st card deck
      then check_state_end
          (freecell_to_foundation (check_state_begin st) fc (deck * 4 + card_suit card)) 0
      else some [])
    else some []

-- fc_solve_sfs_move_freecell_cards_to_founds
unfoldable pub move_freecell_cards_to_founds : Dims → State → Option (List Derived)
unfolding freecell_card_to_founds for_from
move_freecell_cards_to_founds d st = for_from 0 d.freecells_num (freecell_card_to_founds d st)
