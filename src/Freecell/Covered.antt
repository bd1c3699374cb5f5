-- ===== src/Freecell/Covered.antt =====
-- fc_solve_sfs_move_non_top_stack_cards_to_founds.
use investigate_lack_of_pgo.Prelude.{
  ℕ, ◌+◌, ◌-◌, ◌*◌, ◌≤◌, ◌<◌, ◌≡◌, ◌∙◌, sym, ap, subst, arith, true, leb, ltb, if◌then◌else◌,
  Option, some, List, [], length,
}
use investigate_lack_of_pgo.Card.{card_suit}
use investigate_lack_of_pgo.State.{State, Dims, col_get_card, col_top}
use investigate_lack_of_pgo.Move.Single.{IsNext}
use investigate_lack_of_pgo.Freecell.{
  Deriving, Derived, check_state_begin, check_state_end, copy_stack, column_to_foundation,
}
use investigate_lack_of_pgo.Freecell.Loops.{
  find_from, find_from-FoundFrom, for_from, for_down, and_then, and_then-Yields, Succeeds, Yields,
  for_from-Yields, for_down-Yields, if-Yields,
}
use investigate_lack_of_pgo.Freecell.Recorded.{RecordedItem, begin-Recorded, copy_stack-Recorded}
use investigate_lack_of_pgo.Freecell.Primitives.{column_to_foundation-Recorded}
use investigate_lack_of_pgo.Freecell.Founds.{takes}
use investigate_lack_of_pgo.Freecell.FoundsRecorded.{takes-IsNext, found_of_deck}
use investigate_lack_of_pgo.Freecell.Empty.{EmptyTwoColsRet, empty_two_cols, calc_num_vacant_slots}
use investigate_lack_of_pgo.Freecell.Empty.ToFreecells.{CleanFrom}
use investigate_lack_of_pgo.Freecell.Empty.Emptied.{Emptied, empty_two_cols-Emptied, two_cols}
use investigate_lack_of_pgo.Freecell.Empty.TwoCols.{
  two_cols-Ready, length-two_cols, occurs-two_cols, Progress-Cut, Cut-top,
}

-- the card at height `c`, uncovered, to the foundation of its suit
unfoldable pub uncovered_to_found : Deriving → ℕ → ℕ → Option (List Derived)
uncovered_to_found x stack_idx deck =
    let top_card = col_top (x.st.stacks stack_idx) in
    check_state_end (column_to_foundation x stack_idx (deck * 4 + card_suit top_card)) 0

-- the body of the loop over the heights
unfoldable pub covered_card_to_founds : Dims → State → ℕ → ℕ → Option (List Derived)
unfolding find_from empty_two_cols uncovered_to_found
covered_card_to_founds d st stack_idx c =
    let col = st.stacks stack_idx in
    let above = length col - (c + 1) in
    let deck = find_from (takes st (col_get_card col c)) 0 d.decks_num in
    if ltb deck d.decks_num
    then if leb above (calc_num_vacant_slots d st)
      then and_then
          (empty_two_cols d (copy_stack (check_state_begin st) stack_idx) stack_idx 0 above 0)
          (λ out. uncovered_to_found out.0 stack_idx deck)
      else some []
    else some []

-- fc_solve_sfs_move_non_top_stack_cards_to_founds
unfoldable pub move_non_top_stack_cards_to_founds : Dims → State → Option (List Derived)
unfolding covered_card_to_founds for_from for_down
move_non_top_stack_cards_to_founds d st = for_from 0 d.stacks_num (λ stack_idx.
    for_down (length (st.stacks stack_idx) - 1) (covered_card_to_founds d st stack_idx))

module _ (d : Dims) (st : State) (clean : CleanFrom d st 0) where
  -- the cards above the height, from the state's own column
  pub cards_above-Succeeds :
      (s c : ℕ)
      → s < d.stacks_num
      → c < length (st.stacks s)
      → length (st.stacks s) - (c + 1) ≤ calc_num_vacant_slots d st
      → Succeeds
          (Emptied d st
            (copy_stack (check_state_begin st) s)
            (two_cols s 0 (length (st.stacks s) - (c + 1)) 0))
          (empty_two_cols d
            (copy_stack (check_state_begin st) s)
            s
            0
            (length (st.stacks s) - (c + 1))
            0)
  cards_above-Succeeds s c h k room =
      let above = length (st.stacks s) - (c + 1) in
      empty_two_cols-Emptied d st (copy_stack (check_state_begin st) s) s 0 above 0
        (copy_stack-Recorded d st (check_state_begin st) (begin-Recorded d st) s)
        (two_cols-Ready d (copy_stack (check_state_begin st) s) s 0 above 0
          (λ one. absurd (omega arith)) (λ one. (h, ground arith, omega arith))
          (λ one. absurd (omega arith)))
        clean (omega (arith, length-two_cols s 0 above 0, room))

  uncovered-Yields :
      (s c deck : ℕ) (out : Deriving × EmptyTwoColsRet)
      → s < d.stacks_num
      → c < length (st.stacks s)
      → deck < d.decks_num
      → takes st (col_get_card (st.stacks s) c) deck ≡ true
      → Emptied d st
          (copy_stack (check_state_begin st) s)
          (two_cols s 0 (length (st.stacks s) - (c + 1)) 0)
          out
      → Yields (RecordedItem d st) (uncovered_to_found out.0 s deck)
  unfolding uncovered_to_found
  uncovered-Yields s c deck out h k lt fits e =
      let col = st.stacks s in
      let above = length col - (c + 1) in
      let x = copy_stack (check_state_begin st) s in
      let cut =
        Progress-Cut x out.0 (two_cols s 0 above 0) s above e.progress
          (ground (arith, occurs-two_cols s s 0 above 0)) (omega (arith, k)) in
      let top : col_top (out.0.st.stacks s) ≡ col_get_card col c =
        Cut-top col (out.0.st.stacks s) above cut (omega (arith, k))
        ∙ ap (col_get_card col) (omega (arith, k)) in
      let next : IsNext out.0.st (deck * 4 + card_suit (col_get_card col c)) (col_get_card col c) =
        subst
          (λ g.
            IsNext (record out.0.st { foundations = g }) (deck * 4 + card_suit (col_get_card col c))
              (col_get_card col c))
          (sym e.progress.foundations) (takes-IsNext st (col_get_card col c) deck fits) in
      (
        column_to_foundation-Recorded d st out.0 e.recorded s _
            (
              h,
              found_of_deck d (col_top (out.0.st.stacks s)) deck lt,
              omega (arith, cut.shorter, k),
              subst (λ card. IsNext out.0.st (deck * 4 + card_suit card) card) (sym top) next,
            )
            (e.progress.kept s (ground arith)),
        tt,
      )

  -- The same of `fc_solve_sfs_move_non_top_stack_cards_to_founds`; no assertion fails.
  pub non_top_stack_cards-Yields :
      Yields (RecordedItem d st) (move_non_top_stack_cards_to_founds d st)
  unfolding move_non_top_stack_cards_to_founds covered_card_to_founds
  non_top_stack_cards-Yields = for_from-Yields (RecordedItem d st) 0 d.stacks_num _ (λ s h k.
      for_down-Yields (RecordedItem d st) (length (st.stacks s) - 1) _ (λ c q.
        let col = st.stacks s in
        let test = takes st (col_get_card col c) in
        let deck = find_from test 0 d.decks_num in
        let found = find_from-FoundFrom test 0 d.decks_num in
        if-Yields (RecordedItem d st) (ltb deck d.decks_num) _ (λ lt.
          if-Yields (RecordedItem d st) (leb (length col - (c + 1)) (calc_num_vacant_slots d st)) _
            (λ room.
              and_then-Yields (Emptied d st _ (two_cols s 0 (length col - (c + 1)) 0))
                (RecordedItem d st) _ (λ out. uncovered_to_found out.0 s deck)
                (cards_above-Succeeds s c (omega arith) (omega (arith, q)) (ground (arith, room)))
                (λ out e.
                  uncovered-Yields s c deck out (omega arith) (omega (arith, q))
                    (ground (arith, lt)) (found.passes (ground (arith, lt))) e)))))
