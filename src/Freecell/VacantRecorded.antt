-- ===== src/Freecell/VacantRecorded.antt =====
-- The states that the tests for vacant columns and freecells derive.
use investigate_lack_of_pgo.Prelude.{
  ℕ, zero, suc, ◌+◌, ◌-◌, ◌≤◌, ◌<◌, ◌≡◌, ◌∙◌, sym, ap, subst, arith, true, not, ◌==◌, leb, inl,
  length,
}
use investigate_lack_of_pgo.Card.{card_is_empty}
use investigate_lack_of_pgo.State.{State, Dims}
use investigate_lack_of_pgo.State.Changes.{length-col_pop_top}
use investigate_lack_of_pgo.Freecell.{
  Deriving, card_is_valid, freecell_is_empty, check_state_begin, copy_stack, column_to_freecell,
}
use investigate_lack_of_pgo.Freecell.Loops.{
  find_from, find_from-FoundFrom, count_from, count_from-find, count_from-cong, Yields,
  for_from-Yields, if-Yields, find_from-counted,
}
use investigate_lack_of_pgo.Freecell.Recorded.{
  Recorded, RecordedItem, begin-Recorded, copy_stack-Recorded,
}
use investigate_lack_of_pgo.Freecell.Primitives.{
  column_to_freecell-Recorded, freecell_to_column-Recorded,
}
use investigate_lack_of_pgo.Freecell.Empty.{col_is_empty, num_vacant_freecells, num_vacant_stacks}
use investigate_lack_of_pgo.Freecell.Empty.ToFreecells.{CleanFrom, column_to_freecell-cell}
use investigate_lack_of_pgo.Freecell.Empty.Emptied.{count_all}
use investigate_lack_of_pgo.Freecell.Vacant.{
  freecell_card_to_column, move_freecell_cards_to_empty_stack, fill_freecells,
  column_into_freecells, empty_stack_into_freecells,
}

-- The first vacant column, when there is one.
pub vacant_column :
    (d : Dims) (st : State)
    → 1 ≤ num_vacant_stacks d st
    → (find_from (col_is_empty st) 0 d.stacks_num < d.stacks_num)
      × (col_is_empty st (find_from (col_is_empty st) 0 d.stacks_num) ≡ true)
vacant_column d st h =
    subst
      (λ n.
        (find_from (col_is_empty st) 0 n < d.stacks_num)
        × (col_is_empty st (find_from (col_is_empty st) 0 n) ≡ true))
      (omega arith)
      (find_from-counted (col_is_empty st) 0 d.stacks_num
        (omega (arith, h, count_all (col_is_empty st) d.stacks_num)))

module _ (d : Dims) (st : State) where
  pub card_to_column-Yields :
      (stack_idx fc : ℕ)
      → stack_idx < d.stacks_num
      → col_is_empty st stack_idx ≡ true
      → fc < d.freecells_num
      → Yields (RecordedItem d st) (freecell_card_to_column st stack_idx fc)
  unfolding freecell_card_to_column
  card_to_column-Yields stack_idx fc h empty k =
      if-Yields (RecordedItem d st) (card_is_valid (st.freecells fc)) _ (λ full. (
        freecell_to_column-Recorded d st (copy_stack (check_state_begin st) stack_idx)
            (copy_stack-Recorded d st (check_state_begin st) (begin-Recorded d st) stack_idx) fc
            stack_idx (k, h) (ground (arith, full)) (inl (ground (arith, empty))) (ground arith),
        tt,
      ))

  -- The same of `fc_solve_sfs_move_freecell_cards_to_empty_stack`.
  pub freecell_cards_to_empty_stack-Yields :
      Yields (RecordedItem d st) (move_freecell_cards_to_empty_stack d st)
  unfolding move_freecell_cards_to_empty_stack
  freecell_cards_to_empty_stack-Yields =
      if-Yields (RecordedItem d st) (not (num_vacant_stacks d st == 0)) _ (λ some_vacant.
        let (lt, empty) = vacant_column d st (ground (arith, some_vacant)) in
        for_from-Yields (RecordedItem d st) 0 d.freecells_num _
          (λ fc h k. card_to_column-Yields _ fc lt empty (omega arith)))

fill_freecells-Recorded :
    (d : Dims) (parent : State) (x : Deriving) (src b rounds : ℕ)
    → Recorded d parent x
    → x.copied src ≡ true
    → src < d.stacks_num
    → rounds ≤ length (x.st.stacks src)
    → CleanFrom d x.st b
    → b ≤ d.freecells_num
    → rounds ≤ count_from (freecell_is_empty x.st) b (d.freecells_num - b)
    → Recorded d parent (fill_freecells d x src b rounds)
unfolding fill_freecells
fill_freecells-Recorded d parent x src b zero r own below h clean k room = r
fill_freecells-Recorded d parent x src b (suc rounds) r own below h clean k room =
    let test = freecell_is_empty x.st in
    let dest = find_from test b (d.freecells_num - b) in
    let found = find_from-FoundFrom test b (d.freecells_num - b) in
    let counted = count_from-find test b (d.freecells_num - b) d.freecells_num (omega (arith, k)) in
    let lt : dest < d.freecells_num = ground (arith, counted, room) in
    let y = column_to_freecell x src dest in
    let same : (i : ℕ) → dest + 1 ≤ i → y.st.freecells i ≡ x.st.freecells i =
      λ i q. column_to_freecell-cell x src dest i (omega (arith, q)) in
    let later =
      count_from-cong (freecell_is_empty y.st) test (dest + 1) (d.freecells_num - (dest + 1))
        (λ i q l. ap card_is_empty (same i q)) in
    fill_freecells-Recorded d parent y src (dest + 1) rounds
      (column_to_freecell-Recorded d parent x r src dest
        (
          below,
          lt,
          omega (arith, h),
          clean dest found.from lt (found.passes (omega (arith, lt, k))),
        )
        own)
      own below (ground (arith, h, length-col_pop_top (x.st.stacks src)))
      (λ i q l f.
        same i q ∙ clean i (omega (arith, q, found.from)) l (ap card_is_empty (sym (same i q)) ∙ f))
      (omega (arith, lt)) (ground (arith, later, counted, room, lt))

module _ (d : Dims) (st : State) (clean : CleanFrom d st 0) where
  -- The same of `fc_solve_sfs_empty_stack_into_freecells`, where freecells without a valid card are
  -- empty.
  pub empty_stack_into_freecells-Yields :
      Yields (RecordedItem d st) (empty_stack_into_freecells d st)
  unfolding empty_stack_into_freecells column_into_freecells
  empty_stack_into_freecells-Yields =
      if-Yields (RecordedItem d st) (num_vacant_stacks d st == 0) _ (λ none_vacant.
        for_from-Yields (RecordedItem d st) 0 d.stacks_num _ (λ i h k.
          if-Yields (RecordedItem d st) (leb (length (st.stacks i)) (num_vacant_freecells d st)) _
            (λ fits. (
              fill_freecells-Recorded d st (copy_stack (check_state_begin st) i) i 0
                  (length (st.stacks i))
                  (copy_stack-Recorded d st (check_state_begin st) (begin-Recorded d st) i)
                  (ground arith) (omega arith) (omega arith) clean (omega arith)
                  (ground (arith, fits, count_all (freecell_is_empty st) d.freecells_num)),
              tt,
            ))))
