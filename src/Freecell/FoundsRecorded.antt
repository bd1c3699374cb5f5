-- ===== src/Freecell/FoundsRecorded.antt =====
-- The states that the tests for single cards to the foundations derive.
use investigate_lack_of_pgo.Prelude.{ℕ, ◌+◌, ◌*◌, ◌<◌, ◌≡◌, arith, true, not, ◌==◌, ltb, length}
use investigate_lack_of_pgo.Card.{Card, card_rank, card_suit}
use investigate_lack_of_pgo.State.{State, Dims, col_top}
use investigate_lack_of_pgo.Move.Single.{IsNext}
use investigate_lack_of_pgo.Freecell.{card_is_valid, check_state_begin, copy_stack}
use investigate_lack_of_pgo.Freecell.Loops.{
  find_from, find_from-FoundFrom, Yields, for_from-Yields, if-Yields,
}
use investigate_lack_of_pgo.Freecell.Recorded.{RecordedItem, begin-Recorded, copy_stack-Recorded}
use investigate_lack_of_pgo.Freecell.Primitives.{
  column_to_foundation-Recorded, freecell_to_foundation-Recorded,
}
use investigate_lack_of_pgo.Freecell.Founds.{
  takes, top_card_to_founds, move_top_stack_cards_to_founds, freecell_card_to_founds,
  move_freecell_cards_to_founds,
}

-- a foundation that takes the card is one of the state's, and the card its next one
pub takes-IsNext :
    (st : State) (card : Card) (deck : ℕ)
    → takes st card deck ≡ true
    → IsNext st (deck * 4 + card_suit card) card
unfolding card_suit card_rank
takes-IsNext st card deck h = (omega arith, ground (arith, h))

pub found_of_deck :
    (d : Dims) (card deck : ℕ) → deck < d.decks_num → deck * 4 + card_suit card < d.decks_num * 4
unfolding card_suit
found_of_deck d card deck h = omega (arith, h)

module _ (d : Dims) (st : State) where
  top_card-Yields :
      (i : ℕ) → i < d.stacks_num → Yields (RecordedItem d st) (top_card_to_founds d st i)
  unfolding top_card_to_founds
  top_card-Yields i h =
      let card = col_top (st.stacks i) in
      let deck = find_from (takes st card) 0 d.decks_num in
      let found = find_from-FoundFrom (takes st card) 0 d.decks_num in
      if-Yields (RecordedItem d st) (not (length (st.stacks i) == 0)) _ (λ full.
        if-Yields (RecordedItem d st) (ltb deck d.decks_num) _ (λ lt. (
          column_to_foundation-Recorded d st (copy_stack (check_state_begin st) i)
              (copy_stack-Recorded d st (check_state_begin st) (begin-Recorded d st) i) i
              (deck * 4 + card_suit card)
              (
                h,
                found_of_deck d card deck (ground (arith, lt)),
                ground (arith, full),
                takes-IsNext st card deck (found.passes (ground (arith, lt))),
              )
              (ground arith),
          tt,
        )))

  -- Every state that `fc_solve_sfs_move_top_stack_cards_to_founds` derives is what its moves lead to,
  -- which follow the rules, and no column of the state it comes from is written.
  pub top_stack_cards-Yields : Yields (RecordedItem d st) (move_top_stack_cards_to_founds d st)
  unfolding move_top_stack_cards_to_founds
  top_stack_cards-Yields =
      for_from-Yields (RecordedItem d st) 0 d.stacks_num (top_card_to_founds d st)
        (λ i h k. top_card-Yields i (omega arith))

  freecell_card-Yields :
      (fc : ℕ) → fc < d.freecells_num → Yields (RecordedItem d st) (freecell_card_to_founds d st fc)
  unfolding freecell_card_to_founds
  freecell_card-Yields fc h =
      let card = st.freecells fc in
      if-Yields (RecordedItem d st) (card_is_valid card) _ (λ full.
        for_from-Yields (RecordedItem d st) 0 d.decks_num _ (λ deck j k.
          if-Yields (RecordedItem d st) (takes st card deck) _ (λ fits. (
            freecell_to_foundation-Recorded d st (check_state_begin st) (begin-Recorded d st) fc
                (deck * 4 + card_suit card)
                (h, found_of_deck d card deck (omega arith), takes-IsNext st card deck fits),
            tt,
          ))))

  -- The same of `fc_solve_sfs_move_freecell_cards_to_founds`.
  pub freecell_cards-Yields : Yields (RecordedItem d st) (move_freecell_cards_to_founds d st)
  unfolding move_freecell_cards_to_founds
  freecell_cards-Yields =
      for_from-Yields (RecordedItem d st) 0 d.freecells_num (freecell_card_to_founds d st)
        (λ i h k. freecell_card-Yields i (omega arith))
