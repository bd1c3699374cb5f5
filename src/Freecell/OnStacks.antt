-- ===== src/Freecell/OnStacks.antt =====
-- fc_solve_sfs_move_freecell_cards_on_top_of_stacks.
use investigate_lack_of_pgo.Prelude.{
  ℕ, ◌+◌, ◌-◌, ◌*◌, ◌^◌, ◌<◌, ◌≡◌, inr, ◌∙◌, ap, subst, arith, bit_or, true, false, not, ◌&&◌, ◌||◌,
  ◌==◌, leb, if◌then◌else◌, Option, some, List, [], length,
}
use investigate_lack_of_pgo.Card.{Card, card_rank, card_is_empty}
use investigate_lack_of_pgo.State.{State, Dims, col_get_card, col_top}
use investigate_lack_of_pgo.Freecell.{
  Deriving, Derived, card_is_valid, is_parent_card, check_state_begin, check_state_end, copy_stack,
  freecell_to_column,
}
use investigate_lack_of_pgo.Freecell.Loops.{
  for_from, and_then, and_then-Yields, Yields, for_from-Yields, if-Yields,
}
use investigate_lack_of_pgo.Freecell.Recorded.{Recorded, RecordedItem, MayPut}
use investigate_lack_of_pgo.Freecell.Primitives.{freecell_to_column-Recorded}
use investigate_lack_of_pgo.Freecell.Sort.{sorted_derived, sorted_derived-Yields}
use investigate_lack_of_pgo.Freecell.Positions.{positions_by_rank, check_positions}
use investigate_lack_of_pgo.Freecell.Positions.Placed.{OneDeck, IsOpen, card_at}
use investigate_lack_of_pgo.Freecell.Positions.Parents.{check_positions-Yields}
use investigate_lack_of_pgo.Freecell.Empty.{EmptyTwoColsRet, empty_two_cols, calc_num_vacant_slots}
use investigate_lack_of_pgo.Freecell.Empty.ToFreecells.{CleanFrom}
use investigate_lack_of_pgo.Freecell.Empty.Emptied.{Emptied, two_cols}
use investigate_lack_of_pgo.Freecell.Empty.TwoCols.{occurs-two_cols, Progress-Cut, Cut-top}
use investigate_lack_of_pgo.Freecell.Covered.{cards_above-Succeeds}

-- the freecell's card onto the column that was uncovered, with its state_context_value
unfoldable pub put_on_stack : Deriving → Card → ℕ → ℕ → ℕ → Option (List Derived)
put_on_stack x src_card fc ds dc =
    check_state_end (freecell_to_column x src_card fc ds)
      (bit_or (bit_or (ds * 2 ^ 16) ((255 - dc) * 2 ^ 8)) fc)

-- the body of the loop over the positions
unfoldable pub freecell_card_on_stack : Dims → State → ℕ → ℕ → ℕ → Option (List Derived)
unfolding empty_two_cols put_on_stack is_parent_card
freecell_card_on_stack d st fc ds dc =
    let dest_col = st.stacks ds in
    let dest_cards_num = length dest_col in
    let next_dc = dc + 1 in
    if (dest_cards_num == next_dc)
      || (not (is_parent_card (col_get_card dest_col next_dc) (col_get_card dest_col dc))
          && leb (dest_cards_num - next_dc) (calc_num_vacant_slots d st))
    then and_then
        (empty_two_cols d (copy_stack (check_state_begin st) ds) ds 0 (dest_cards_num - next_dc) 0)
        (λ out. put_on_stack out.0 (st.freecells fc) fc ds dc)
    else some []

-- the body of the loop over the freecells
unfoldable pub freecell_card_on_stacks : Dims → State → ℕ → Option (List Derived)
unfolding freecell_card_on_stack check_positions positions_by_rank card_rank
freecell_card_on_stacks d st fc =
    let src_card = st.freecells fc in
    if card_is_valid src_card && not (card_rank src_card == 13)
    then check_positions (positions_by_rank d st) src_card (freecell_card_on_stack d st fc)
    else some []

-- fc_solve_sfs_move_freecell_cards_on_top_of_stacks
unfoldable pub move_freecell_cards_on_top_of_stacks : Dims → State → Option (List Derived)
unfolding freecell_card_on_stacks for_from sorted_derived
move_freecell_cards_on_top_of_stacks d st =
    sorted_derived (for_from 0 d.freecells_num (freecell_card_on_stacks d st))

module _ (d : Dims) (st : State) (clean : CleanFrom d st 0) where
  put_on_stack-Yields :
      (fc ds dc : ℕ) (out : Deriving × EmptyTwoColsRet)
      → fc < d.freecells_num
      → ds < d.stacks_num
      → dc < length (st.stacks ds)
      → card_is_empty (st.freecells fc) ≡ false
      → is_parent_card (st.freecells fc) (card_at st ds dc) ≡ true
      → Emptied d st
          (copy_stack (check_state_begin st) ds)
          (two_cols ds 0 (length (st.stacks ds) - (dc + 1)) 0)
          out
      → Yields (RecordedItem d st) (put_on_stack out.0 (st.freecells fc) fc ds dc)
  unfolding put_on_stack
  put_on_stack-Yields fc ds dc out h k l full fits e =
      let col = st.stacks ds in
      let above = length col - (dc + 1) in
      let x = copy_stack (check_state_begin st) ds in
      let cut =
        Progress-Cut x out.0 (two_cols ds 0 above 0) ds above e.progress
          (ground (arith, occurs-two_cols ds ds 0 above 0)) (omega (arith, l)) in
      let top : col_top (out.0.st.stacks ds) ≡ card_at st ds dc =
        Cut-top col (out.0.st.stacks ds) above cut (omega (arith, l))
        ∙ ap (col_get_card col) (omega (arith, l)) in
      let same : out.0.st.freecells fc ≡ st.freecells fc = e.progress.cells fc full in
      let fits' : MayPut (out.0.st.freecells fc) (out.0.st.stacks ds) = inr (rw (same, top) fits) in
      let made =
        freecell_to_column-Recorded d st out.0 e.recorded fc ds (h, k) (rw same full) fits'
          (e.progress.kept ds (ground arith)) in
      (subst (λ card. Recorded d st (freecell_to_column out.0 card fc ds)) same made, tt)

  on_stack-Yields :
      (fc ds dc : ℕ)
      → fc < d.freecells_num
      → card_is_empty (st.freecells fc) ≡ false
      → IsOpen d st ds dc
      → is_parent_card (st.freecells fc) (card_at st ds dc) ≡ true
      → Yields (RecordedItem d st) (freecell_card_on_stack d st fc ds dc)
  unfolding freecell_card_on_stack
  on_stack-Yields fc ds dc h full bare fits =
      let (k, l) = bare.0 in
      let above = length (st.stacks ds) - (dc + 1) in
      if-Yields (RecordedItem d st) _ _ (λ room.
        and_then-Yields (Emptied d st _ (two_cols ds 0 above 0)) (RecordedItem d st) _
          (λ out. put_on_stack out.0 (st.freecells fc) fc ds dc)
          (cards_above-Succeeds d st clean ds dc k l (ground (arith, room)))
          (λ out e. put_on_stack-Yields fc ds dc out h k l full fits e))

  -- The same of `fc_solve_sfs_move_freecell_cards_on_top_of_stacks`, in columns of cards of one deck.
  pub freecell_cards_on_top-Yields :
      OneDeck d st → Yields (RecordedItem d st) (move_freecell_cards_on_top_of_stacks d st)
  unfolding move_freecell_cards_on_top_of_stacks freecell_card_on_stacks
  freecell_cards_on_top-Yields deck =
      sorted_derived-Yields (RecordedItem d st)
        (for_from 0 d.freecells_num (freecell_card_on_stacks d st))
        (for_from-Yields (RecordedItem d st) 0 d.freecells_num _ (λ fc h k.
          if-Yields (RecordedItem d st) _ _ (λ full.
            check_positions-Yields d st (RecordedItem d st) (st.freecells fc)
              (freecell_card_on_stack d st fc) deck
              (λ ds dc bare fits.
                on_stack-Yields fc ds dc (omega arith) (ground (arith, full)) bare fits))))
