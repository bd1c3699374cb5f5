-- ===== src/Freecell/DifferentParent/Recorded.antt =====
-- The states that the test derives.
use investigate_lack_of_pgo.Prelude.{
  ℕ, zero, suc, ◌+◌, ◌-◌, ◌≤◌, ◌<◌, ◌≡◌, ◌≢◌, inl, inr, ◌∙◌, sym, ap, subst, arith, true, ◌==◌, ltb,
  Bool-cases, length,
}
use investigate_lack_of_pgo.State.{State, Dims, Column, col_get_card, col_top}
use investigate_lack_of_pgo.Freecell.{
  Deriving, is_parent_card, check_state_begin, check_state_end, copy_stack, move_sequence,
}
use investigate_lack_of_pgo.Freecell.Loops.{
  and_then, and_then-Yields, Yields, for_from-Yields, if-Yields,
}
use investigate_lack_of_pgo.Freecell.Recorded.{Recorded, RecordedItem, copy_stack-Recorded}
use investigate_lack_of_pgo.Freecell.Sequence.{move_sequence-Recorded}
use investigate_lack_of_pgo.Freecell.Sort.{sorted_derived-Yields}
use investigate_lack_of_pgo.Freecell.Positions.Placed.{OneDeck, IsOpen, card_at}
use investigate_lack_of_pgo.Freecell.Positions.Parents.{check_positions-Yields}
use investigate_lack_of_pgo.Freecell.Empty.{EmptyTwoColsRet, empty_two_cols}
use investigate_lack_of_pgo.Freecell.Empty.ToFreecells.{CleanFrom}
use investigate_lack_of_pgo.Freecell.Empty.Emptied.{Emptied, two_cols}
use investigate_lack_of_pgo.Freecell.Empty.TwoCols.{occurs-two_cols, Cut, Progress-Cut, Cut-top}
use investigate_lack_of_pgo.Freecell.Covered.{cards_above-Succeeds}
use investigate_lack_of_pgo.Freecell.DifferentStacks.{
  freecells_to_fill, freestacks_to_fill, all_relocated, sequence_context,
}
use investigate_lack_of_pgo.Freecell.DifferentStacks.Recorded.{
  EndsSequence, Placing, all_relocated-fits, Cut-IsSequence,
}
use investigate_lack_of_pgo.Freecell.DifferentParent.{
  min_card_height, cards_to_parent, cards_to_parents, column_to_parents,
  move_cards_to_a_different_parent,
}

-- From one below the height found up, each card is on its parent.
pub min_card_height-IsSequence :
    (col : Column) (height : ℕ)
    → (1 ≤ min_card_height col height)
      × ((j : ℕ)
          → min_card_height col height ≤ j + 1
          → j < height
          → is_parent_card (col_get_card col (j + 1)) (col_get_card col j) ≡ true)
unfolding min_card_height
min_card_height-IsSequence col zero = (omega arith, λ j h k. absurd (omega (arith, k)))
min_card_height-IsSequence col (suc height) =
    let rest = min_card_height-IsSequence col height in
    elim (Bool-cases (is_parent_card (col_get_card col (height + 1)) (col_get_card col height))) [
      | inl e ↦ rw e (
        rest.0,
        λ j h k. elim (Bool-cases (j == height)) [
          | inl s ↦
              let same : height ≡ j = ground (arith, s) in
              subst (λ i. is_parent_card (col_get_card col (i + 1)) (col_get_card col i) ≡ true)
                same e
          | inr s ↦ rest.1 j h (ground (arith, k, s))
        ],
      )
      | inr e ↦ rw e (omega arith, λ j h k. absurd (omega (arith, h, k)))
    ]

-- When no card is left to relocate, all of them fill slots.
all_relocated-filled :
    (d : Dims) (st : State) (num : ℕ)
    → all_relocated d st num ≡ true
    → freestacks_to_fill d st num + freecells_to_fill d st num ≡ num
unfolding all_relocated freestacks_to_fill freecells_to_fill
all_relocated-filled d st num h = ground (arith, h)

module _ (d : Dims) (st : State) (src c end ds dc : ℕ) (q : Placing d st src c end ds dc)
    (ends : end + 1 ≡ length (st.stacks src)) where
  to_parent-Recorded :
      (out : Deriving × EmptyTwoColsRet)
      → Emptied d st
          (copy_stack (check_state_begin st) ds)
          (two_cols ds 0 (length (st.stacks ds) - (dc + 1)) 0)
          out
      → Recorded d st (move_sequence (copy_stack out.0 src) ds src c end)
  to_parent-Recorded out e =
      let above = length (st.stacks ds) - (dc + 1) in
      let x = copy_stack (check_state_begin st) ds in
      let cols = two_cols ds 0 above 0 in
      let inside = q.ends.inside in
      let cut =
        Progress-Cut x out.0 cols src 0 e.progress
          (ground (arith, occurs-two_cols src ds 0 above 0, q.apart)) (omega (arith, inside)) in
      let cut' =
        Progress-Cut x out.0 cols ds above e.progress
          (ground (arith, occurs-two_cols ds ds 0 above 0)) (omega (arith, q.bare.0.1)) in
      let top : col_top (out.0.st.stacks ds) ≡ card_at st ds dc =
        Cut-top (st.stacks ds) (out.0.st.stacks ds) above cut' (omega (arith, q.bare.0.1))
        ∙ ap (col_get_card (st.stacks ds)) (omega (arith, q.bare.0.1)) in
      let first : col_get_card (out.0.st.stacks src) c ≡ card_at st src c =
        cut.under c (omega (arith, q.ends.from, inside)) in
      let none_above : 0 ≡ length (st.stacks src) - 1 - end = omega (arith, ends) in
      let cut_end = subst (λ n. Cut (st.stacks src) n (out.0.st.stacks src)) none_above cut in
      move_sequence-Recorded d st (copy_stack out.0 src) ds src c end
        (copy_stack-Recorded d st out.0 e.recorded src) (q.below, q.bare.0.0, q.apart) q.ends.from
        (omega (arith, cut.shorter, ends))
        (Cut-IsSequence (st.stacks src) (out.0.st.stacks src) c end cut_end q.ends)
        (inr (rw (first, top) q.fits))
        (ground arith, ground (arith, e.progress.kept ds (ground arith)))

module _ (d : Dims) (st : State) (clean : CleanFrom d st 0) where
  cards_to_parent-Yields :
      (src c ds dc : ℕ)
      → src < d.stacks_num
      → EndsSequence (st.stacks src) c (length (st.stacks src) - 1)
      → IsOpen d st ds dc
      → is_parent_card (card_at st src c) (card_at st ds dc) ≡ true
      → Yields (RecordedItem d st) (cards_to_parent d st src c ds dc)
  unfolding cards_to_parent
  cards_to_parent-Yields src c ds dc h ends bare fits =
      let above = length (st.stacks ds) - (dc + 1) in
      let num = length (st.stacks ds) - dc - 1 in
      let all : num ≡ above = omega arith in
      let fill = freestacks_to_fill d st num + freecells_to_fill d st num in
      let x = copy_stack (check_state_begin st) ds in
      if-Yields (RecordedItem d st) _ _ (λ guard.
        let fit : all_relocated d st num ≡ true = ground (arith, guard) in
        let apart : ds ≢ src = ground (arith, guard) in
        let filled : above ≡ fill = sym (all_relocated-filled d st num fit ∙ all) in
        let room = all_relocated-fits d st num fit in
        let q : Placing d st src c (length (st.stacks src) - 1) ds dc = record {
          below = h;
          ends = ends;
          bare = bare;
          apart = apart;
          fits = fits;
        } in
        subst
          (λ n. Yields (RecordedItem d st) (
            and_then (empty_two_cols d x ds 0 n 0) (λ out.
              check_state_end
                (move_sequence (copy_stack out.0 src) ds src c (length (st.stacks src) - 1))
                (sequence_context src c ds dc))))
          filled
          (and_then-Yields (Emptied d st x (two_cols ds 0 above 0)) (RecordedItem d st) _ _
            (cards_above-Succeeds d st clean ds dc bare.0.0 bare.0.1 (omega (arith, room)))
            (λ out e. (
              to_parent-Recorded d st src c (length (st.stacks src) - 1) ds dc q
                  (omega (arith, ends.inside)) out e,
              tt,
            ))))

  column_to_parents-Yields :
      OneDeck d st
      → (src : ℕ) → src < d.stacks_num
      → Yields (RecordedItem d st) (column_to_parents d st src)
  unfolding column_to_parents cards_to_parents
  column_to_parents-Yields deck src h =
      let col = st.stacks src in
      let (least, run) = min_card_height-IsSequence col (length col - 1) in
      elim (Bool-cases (ltb (length col) 2)) [
        | inl e ↦ rw e tt
        | inr e ↦ rw e (
            for_from-Yields (RecordedItem d st) (min_card_height col (length col - 1)) _ _
              (λ c low high.
                check_positions-Yields d st (RecordedItem d st) (card_at st src c)
                  (cards_to_parent d st src c) deck
                  (λ ds dc bare fits.
                    cards_to_parent-Yields src c ds dc h
                      (record {
                        from = omega (arith, high, low);
                        inside = ground (arith, e);
                        run = λ j k l. run j (omega (arith, low, k)) l;
                      })
                      bare fits)))
      ]

  -- The same of `fc_solve_sfs_move_cards_to_a_different_parent`, in columns of cards of one deck.
  pub different_parent-Yields :
      OneDeck d st → Yields (RecordedItem d st) (move_cards_to_a_different_parent d st)
  unfolding move_cards_to_a_different_parent
  different_parent-Yields deck = sorted_derived-Yields (RecordedItem d st) _ (
      for_from-Yields (RecordedItem d st) 0 d.stacks_num _
        (λ src h k. column_to_parents-Yields deck src (omega arith)))
