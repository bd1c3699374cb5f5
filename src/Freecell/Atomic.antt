-- ===== src/Freecell/Atomic.antt =====
-- The atomic tests, which move one card each, and the states that they derive.
use investigate_lack_of_pgo.Prelude.{
  ℕ, ◌≤◌, ◌<◌, ◌≡◌, ◌≢◌, inl, inr, subst, arith, Bool, true, not, ◌&&◌, ◌==◌, ltb, if◌then◌else◌,
  Bool-cases, both_true, Option, some, List, [], length,
}
use investigate_lack_of_pgo.Card.{Card, card_is_empty}
use investigate_lack_of_pgo.State.{State, Dims, col_top}
use investigate_lack_of_pgo.Freecell.{
  Derived, is_parent_card, freecell_is_empty, check_state_begin, check_state_end, copy_stack,
  column_to_column, column_to_freecell, freecell_to_column,
}
use investigate_lack_of_pgo.Freecell.Loops.{
  find_from, find_from-counted, for_from, Yields, for_from-Yields, if-Yields,
}
use investigate_lack_of_pgo.Freecell.Recorded.{
  RecordedItem, MayPut, begin-Recorded, copy_stack-Recorded,
}
use investigate_lack_of_pgo.Freecell.Primitives.{
  column_to_column-Recorded, column_to_freecell-Recorded, freecell_to_column-Recorded,
}
use investigate_lack_of_pgo.Freecell.Empty.{col_is_empty, num_vacant_freecells, num_vacant_stacks}
use investigate_lack_of_pgo.Freecell.Empty.ToFreecells.{CleanFrom}
use investigate_lack_of_pgo.Freecell.Empty.Emptied.{count_all}
use investigate_lack_of_pgo.Freecell.Vacant.{freecell_card_to_column}
use investigate_lack_of_pgo.Freecell.VacantRecorded.{vacant_column, card_to_column-Yields}

-- a column's top card to another column, both copied
unfoldable pub top_card_to : State → ℕ → ℕ → Option (List Derived)
unfolding column_to_column
top_card_to st stack_idx ds =
    check_state_end
      (column_to_column (copy_stack (copy_stack (check_state_begin st) stack_idx) ds) stack_idx ds)
      0

-- fc_solve_sfs_atomic_move_card_to_empty_stack
unfoldable pub atomic_move_card_to_empty_stack : Dims → State → Option (List Derived)
unfolding top_card_to find_from for_from
atomic_move_card_to_empty_stack d st =
    let empty_stack_idx = find_from (col_is_empty st) 0 d.stacks_num in
    if not (num_vacant_stacks d st == 0)
    then for_from 0 d.stacks_num (λ stack_idx.
      if ltb 1 (length (st.stacks stack_idx))
      then top_card_to st stack_idx empty_stack_idx
      else some [])
    else some []

-- the card may go onto the top card of the column
unfoldable pub is_on_parent : State → Card → ℕ → Bool
unfolding is_parent_card
is_on_parent st card ds =
    ltb 0 (length (st.stacks ds)) && is_parent_card card (col_top (st.stacks ds))

-- the body of the loop over the columns
unfoldable pub top_card_to_parents : Dims → State → ℕ → Option (List Derived)
unfolding is_on_parent top_card_to for_from
top_card_to_parents d st stack_idx =
    if ltb 0 (length (st.stacks stack_idx))
    then for_from 0 d.stacks_num (λ ds.
      if not (ds == stack_idx) && is_on_parent st (col_top (st.stacks stack_idx)) ds
      then top_card_to st stack_idx ds
      else some [])
    else some []

-- fc_solve_sfs_atomic_move_card_to_parent
unfoldable pub atomic_move_card_to_parent : Dims → State → Option (List Derived)
unfolding top_card_to_parents for_from
atomic_move_card_to_parent d st = for_from 0 d.stacks_num (top_card_to_parents d st)

-- fc_solve_sfs_atomic_move_card_to_freecell
unfoldable pub atomic_move_card_to_freecell : Dims → State → Option (List Derived)
unfolding find_from for_from
atomic_move_card_to_freecell d st =
    let ds = find_from (freecell_is_empty st) 0 d.freecells_num in
    if not (num_vacant_freecells d st == 0)
    then for_from 0 d.stacks_num (λ stack_idx.
      if ltb 0 (length (st.stacks stack_idx))
      then check_state_end
          (column_to_freecell (copy_stack (check_state_begin st) stack_idx) stack_idx ds) 0
      else some [])
    else some []

-- the body of the loop over the freecells
unfoldable pub freecell_card_to_parents : Dims → State → ℕ → Option (List Derived)
unfolding is_on_parent for_from
freecell_card_to_parents d st fc =
    let card = st.freecells fc in
    if card_is_empty card
    then some []
    else for_from 0 d.stacks_num (λ ds.
      if is_on_parent st card ds
      then check_state_end (freecell_to_column (copy_stack (check_state_begin st) ds) card fc ds) 0
      else some [])

-- fc_solve_sfs_atomic_move_freecell_card_to_parent
unfoldable pub atomic_move_freecell_card_to_parent : Dims → State → Option (List Derived)
unfolding freecell_card_to_parents for_from
atomic_move_freecell_card_to_parent d st =
    for_from 0 d.freecells_num (freecell_card_to_parents d st)

-- fc_solve_sfs_atomic_move_freecell_card_to_empty_stack, whose loop over the freecells has the body
-- of fc_solve_sfs_move_freecell_cards_to_empty_stack's
unfoldable pub atomic_move_freecell_card_to_empty_stack : Dims → State → Option (List Derived)
unfolding freecell_card_to_column find_from for_from
atomic_move_freecell_card_to_empty_stack d st =
    let ds = find_from (col_is_empty st) 0 d.stacks_num in
    if num_vacant_stacks d st == 0
    then some []
    else for_from 0 d.freecells_num (freecell_card_to_column st ds)

module _ (d : Dims) (st : State) where
  top_card_to-Yields :
      (src ds : ℕ)
      → src < d.stacks_num
      → ds < d.stacks_num
      → ds ≢ src
      → 1 ≤ length (st.stacks src)
      → MayPut (col_top (st.stacks src)) (st.stacks ds)
      → Yields (RecordedItem d st) (top_card_to st src ds)
  unfolding top_card_to
  top_card_to-Yields src ds h k ne l fits =
      let x = copy_stack (check_state_begin st) src in
      (
        column_to_column-Recorded d st (copy_stack x ds)
            (copy_stack-Recorded d st x
              (copy_stack-Recorded d st (check_state_begin st) (begin-Recorded d st) src) ds)
            src ds (h, k, ne, l) fits (ground arith) (ground arith),
        tt,
      )

  -- The same of `fc_solve_sfs_atomic_move_card_to_empty_stack`.
  pub card_to_empty_stack-Yields : Yields (RecordedItem d st) (atomic_move_card_to_empty_stack d st)
  unfolding atomic_move_card_to_empty_stack
  card_to_empty_stack-Yields =
      let ds = find_from (col_is_empty st) 0 d.stacks_num in
      if-Yields (RecordedItem d st) (not (num_vacant_stacks d st == 0)) _ (λ vacant.
        let (lt, empty) = vacant_column d st (ground (arith, vacant)) in
        for_from-Yields (RecordedItem d st) 0 d.stacks_num _ (λ src h k.
          if-Yields (RecordedItem d st) (ltb 1 (length (st.stacks src))) _ (λ more.
            top_card_to-Yields src ds (omega arith) lt
              (λ e. ground (arith, subst (λ i. col_is_empty st i ≡ true) e empty, more))
              (ground (arith, more)) (inl (ground (arith, empty))))))

  is_on_parent-MayPut :
      (card : Card) (ds : ℕ) → is_on_parent st card ds ≡ true → MayPut card (st.stacks ds)
  unfolding is_on_parent
  is_on_parent-MayPut card ds h =
      inr (both_true _ (is_parent_card card (col_top (st.stacks ds))) h).1

  -- The same of `fc_solve_sfs_atomic_move_card_to_parent`.
  pub card_to_parent-Yields : Yields (RecordedItem d st) (atomic_move_card_to_parent d st)
  unfolding atomic_move_card_to_parent top_card_to_parents
  card_to_parent-Yields = for_from-Yields (RecordedItem d st) 0 d.stacks_num _ (λ src h k.
      let card = col_top (st.stacks src) in
      if-Yields (RecordedItem d st) (ltb 0 (length (st.stacks src))) _ (λ full.
        for_from-Yields (RecordedItem d st) 0 d.stacks_num _ (λ ds p q.
          if-Yields (RecordedItem d st) (not (ds == src) && is_on_parent st card ds) _ (λ guard.
            let (differ, fits) = both_true (not (ds == src)) (is_on_parent st card ds) guard in
            top_card_to-Yields src ds (omega arith) (omega (arith, q)) (ground (arith, differ))
              (ground (arith, full)) (is_on_parent-MayPut card ds fits)))))

  -- The same of `fc_solve_sfs_atomic_move_card_to_freecell`, where freecells without a valid card are
  -- empty.
  pub card_to_freecell-Yields :
      CleanFrom d st 0 → Yields (RecordedItem d st) (atomic_move_card_to_freecell d st)
  unfolding atomic_move_card_to_freecell
  card_to_freecell-Yields clean =
      let test = freecell_is_empty st in
      let ds = find_from test 0 d.freecells_num in
      if-Yields (RecordedItem d st) (not (num_vacant_freecells d st == 0)) _ (λ vacant.
        let (lt, empty) =
          subst (λ n. (find_from test 0 n < d.freecells_num) × (test (find_from test 0 n) ≡ true))
            (omega arith)
            (find_from-counted test 0 d.freecells_num
              (ground (arith, vacant, count_all test d.freecells_num))) in
        for_from-Yields (RecordedItem d st) 0 d.stacks_num _ (λ src h k.
          if-Yields (RecordedItem d st) (ltb 0 (length (st.stacks src))) _ (λ full. (
            column_to_freecell-Recorded d st (copy_stack (check_state_begin st) src)
                (copy_stack-Recorded d st (check_state_begin st) (begin-Recorded d st) src) src ds
                (omega arith, lt, ground (arith, full), clean ds (omega arith) lt empty)
                (ground arith),
            tt,
          ))))

  -- The same of `fc_solve_sfs_atomic_move_freecell_card_to_parent`.
  pub freecell_card_to_parent-Yields :
      Yields (RecordedItem d st) (atomic_move_freecell_card_to_parent d st)
  unfolding atomic_move_freecell_card_to_parent freecell_card_to_parents
  freecell_card_to_parent-Yields =
      for_from-Yields (RecordedItem d st) 0 d.freecells_num _ (λ fc h k.
        elim (Bool-cases (card_is_empty (st.freecells fc))) [
          | inl e ↦ rw e tt
          | inr full ↦ rw full (
              for_from-Yields (RecordedItem d st) 0 d.stacks_num _ (λ ds p q.
                if-Yields (RecordedItem d st) (is_on_parent st (st.freecells fc) ds) _ (λ fits. (
                  freecell_to_column-Recorded d st (copy_stack (check_state_begin st) ds)
                      (copy_stack-Recorded d st (check_state_begin st) (begin-Recorded d st) ds) fc
                      ds (omega arith, omega (arith, q)) full
                      (is_on_parent-MayPut (st.freecells fc) ds fits) (ground arith),
                  tt,
                ))))
        ])

  -- The same of `fc_solve_sfs_atomic_move_freecell_card_to_empty_stack`.
  pub freecell_card_to_empty_stack-Yields :
      Yields (RecordedItem d st) (atomic_move_freecell_card_to_empty_stack d st)
  unfolding atomic_move_freecell_card_to_empty_stack
  freecell_card_to_empty_stack-Yields = elim (Bool-cases (num_vacant_stacks d st == 0)) [
    | inl e ↦ rw e tt
    | inr e ↦
        let (lt, empty) = vacant_column d st (ground (arith, e)) in
        rw e (
          for_from-Yields (RecordedItem d st) 0 d.freecells_num _
            (λ fc h k. card_to_column-Yields d st _ fc lt empty (omega arith)))
  ]
