-- ===== src/Freecell/SameStack/Recorded.antt =====
-- The states that the test derives.
use native.Mathlib.Nat.{add-zero, zero-add}
use investigate_lack_of_pgo.Prelude.{
  ℕ, zero, suc, ◌+◌, ◌-◌, ◌≤◌, ◌<◌, ◌≡◌, refl, ◌∙◌, sym, ap, subst₂, arith, Bool, true, false, not,
  ◌&&◌, leb, Bool-cases, both_true, inl, inr, Option, some, none, List, length,
}
use investigate_lack_of_pgo.Card.{Card, card_is_empty}
use investigate_lack_of_pgo.State.{State, Dims, col_get_card, col_top}
use investigate_lack_of_pgo.Freecell.{Deriving, is_parent_card, check_state_begin, copy_stack}
use investigate_lack_of_pgo.Freecell.Loops.{
  and_then-Yields, and_then, Succeeds, Yields, for_from-Yields, if-Yields, count_from,
}
use investigate_lack_of_pgo.Freecell.Recorded.{RecordedItem, begin-Recorded, copy_stack-Recorded}
use investigate_lack_of_pgo.Freecell.Primitives.{
  column_to_column-Recorded, freecell_to_column-Recorded,
}
use investigate_lack_of_pgo.Freecell.Positions.Placed.{OneDeck}
use investigate_lack_of_pgo.Freecell.Empty.{
  EmptyTwoColsRet, nowhere, to_freecell, to_column, empty_two_cols, calc_num_vacant_slots,
  num_vacant_freecells, num_vacant_stacks, col_is_empty, next_put,
}
use investigate_lack_of_pgo.Freecell.Empty.ToFreecells.{CleanFrom}
use investigate_lack_of_pgo.Freecell.Empty.Emptied.{Emptied, empty_two_cols-Emptied, two_cols}
use investigate_lack_of_pgo.Freecell.Empty.TwoCols.{
  two_cols-Ready, length-two_cols, occurs-two_cols, Progress-Cut, Cut-top,
}
use investigate_lack_of_pgo.Freecell.Empty.Landed.{Landed, Taking, IfGiven, empty_two_cols-Taking}
use investigate_lack_of_pgo.Freecell.SameStack.{
  back_to_column, card_to_height, move_stack_cards_to_a_parent_on_the_same_stack,
}

both-Succeeds :
    {A : Type 0} (P Q : A → Type 0) (o : Option A)
    → Succeeds P o
    → IfGiven Q o
    → Succeeds (λ a. P a × Q a) o
both-Succeeds P Q (some a) h k = (h, k)
both-Succeeds P Q none h k = absurd h

-- Indices behind others are no more.
count_from-later :
    (test : ℕ → Bool) (k i rounds : ℕ)
    → count_from test (i + k) rounds ≤ count_from test i (k + rounds)
unfolding count_from
count_from-later test zero i rounds = rw (add-zero, zero-add) (omega arith)
count_from-later test (suc k) i rounds =
    let rest = count_from-later test k (i + 1) rounds in
    let from : i + 1 + k ≡ i + suc k = omega arith in
    let long : suc (k + rounds) ≡ suc k + rounds = omega arith in
    subst₂ (λ a b. count_from test a rounds ≤ count_from test i b) from long (omega (arith, rest))

-- Of all vacant columns, as many at least as from an index on.
num_vacant_stacks-from :
    (d : Dims) (st : State) (put : ℕ)
    → count_from (col_is_empty st) put (d.stacks_num - put) ≤ num_vacant_stacks d st
unfolding count_from
num_vacant_stacks-from d st put = elim (Bool-cases (leb put d.stacks_num)) [
  | inl e ↦
      let later = count_from-later (col_is_empty st) put 0 (d.stacks_num - put) in
      let all : put + (d.stacks_num - put) ≡ d.stacks_num = ground (arith, e) in
      subst₂
        (λ a b.
          count_from (col_is_empty st) a (d.stacks_num - put) ≤ count_from (col_is_empty st) 0 b)
        (omega arith) all later
  | inr e ↦ let no_more : d.stacks_num - put ≡ 0 = ground (arith, e) in rw no_more (omega arith)
]

-- A card that is to go from height `c` of column `ds` onto the one at height `dc`.
record Returning (d : Dims) (st : State) (ds c dc : ℕ) : Type 0 where
  below : ds < d.stacks_num
  inside : c < length (st.stacks ds)
  deeper : dc + 1 < c
  fits : is_parent_card (col_get_card (st.stacks ds) c) (col_get_card (st.stacks ds) dc) ≡ true
  room : length (st.stacks ds) - (dc + 1) ≤ calc_num_vacant_slots d st

module _ (d : Dims) (st : State) (clean : CleanFrom d st 0) (deck : OneDeck d st) where
  module _ (ds c dc : ℕ) (q : Returning d st ds c dc) where
    abbrev col : List Card
    col = st.stacks ds

    abbrev card : Card
    card = col_get_card col c

    abbrev above : ℕ
    above = length col - c

    abbrev between : ℕ
    between = c - dc - 1

    abbrev start : Deriving
    start = copy_stack (check_state_begin st) ds

    -- the card and those above it have gone
    abbrev First : Deriving × EmptyTwoColsRet → Type 0
    First out =
        Emptied d st start (two_cols ds 0 above 0) out
        × Taking d ds c card (num_vacant_freecells d st) above out.0 0 out.1

    -- and then those between it and its parent
    abbrev Second : Deriving → Deriving × EmptyTwoColsRet → Type 0
    Second x out = Emptied d st x (two_cols ds 0 between 0) out

    card-full : card_is_empty card ≡ false
    card-full = ground (arith, deck.valid ds c (q.below, q.inside))

    valid : (j : ℕ) → j < length col → card_is_empty (col_get_card col j) ≡ false
    valid j k = ground (arith, deck.valid ds j (q.below, k))

    First-Succeeds : Succeeds First (empty_two_cols d start ds 0 above 0)
    First-Succeeds =
        let inside = q.inside in
        let deeper = q.deeper in
        let emptied =
          empty_two_cols-Emptied d st start ds 0 above 0
            (copy_stack-Recorded d st (check_state_begin st) (begin-Recorded d st) ds)
            (two_cols-Ready d start ds 0 above 0 (λ one. absurd (omega arith))
              (λ one. (q.below, ground arith, omega arith)) (λ one. absurd (omega arith)))
            clean (omega (arith, length-two_cols ds 0 above 0, q.room)) in
        both-Succeeds (Emptied d st start (two_cols ds 0 above 0))
          (λ out. Taking d ds c card (num_vacant_freecells d st) above out.0 0 out.1) _ emptied
          (empty_two_cols-Taking d ds c card (num_vacant_freecells d st) above start above (record {
            height = omega arith;
            above = omega arith;
            lowest = λ k. refl;
            valid = valid;
            clean = clean;
            spare = omega arith;
            landed = λ e. absurd (omega (arith, e));
          }))

    Second-Succeeds :
        (first : Deriving × EmptyTwoColsRet)
        → First first
        → Succeeds (Second first.0) (empty_two_cols d first.0 ds 0 between 0)
    Second-Succeeds first (e, t) =
        let inside = q.inside in
        let deeper = q.deeper in
        let x = first.0 in
        let free = num_vacant_stacks-from d x.st (next_put first.1) in
        let moved = length-two_cols ds 0 above 0 in
        empty_two_cols-Emptied d st x ds 0 between 0 e.recorded
          (two_cols-Ready d x ds 0 between 0 (λ one. absurd (omega arith))
            (λ one. (q.below, e.progress.kept ds (ground arith), omega (arith, t.height)))
            (λ one. absurd (omega arith)))
          t.clean
          (omega (arith, length-two_cols ds 0 between 0, moved, free, e.vacant, t.spare, q.room))

    -- The parent is on top then.
    parent_on_top :
        (first second : Deriving × EmptyTwoColsRet)
        → First first
        → Second first.0 second
        → col_top (second.0.st.stacks ds) ≡ col_get_card col dc
    parent_on_top first second (e, t) e' =
        let inside = q.inside in
        let deeper = q.deeper in
        let x = first.0 in
        let cut =
          Progress-Cut start x (two_cols ds 0 above 0) ds above e.progress
            (ground (arith, occurs-two_cols ds ds 0 above 0)) (omega arith) in
        let cut' =
          Progress-Cut x second.0 (two_cols ds 0 between 0) ds between e'.progress
            (ground (arith, occurs-two_cols ds ds 0 between 0)) (omega (arith, t.height)) in
        Cut-top (x.st.stacks ds) (second.0.st.stacks ds) between cut' (omega (arith, t.height))
        ∙ ap (col_get_card (x.st.stacks ds)) (omega (arith, t.height))
        ∙ cut.under dc (omega arith)

    back-Yields :
        (first second : Deriving × EmptyTwoColsRet) (ret : EmptyTwoColsRet)
        → First first
        → Second first.0 second
        → Landed d first.0 ds card ret
        → Yields (RecordedItem d st) (back_to_column second.0 ret ds)
    unfolding back_to_column
    back-Yields first second nowhere f e' l = absurd l
    back-Yields first second (to_freecell i) (e, t) e' (lt, there) =
        let stays : second.0.st.freecells i ≡ card =
          e'.progress.cells i (ap card_is_empty there ∙ card-full) ∙ there in
        let top = parent_on_top first second (e, t) e' in
        (
          freecell_to_column-Recorded d st second.0 e'.recorded i ds (lt, q.below)
              (ap card_is_empty stays ∙ card-full) (inr (rw (stays, top) q.fits))
              (e'.progress.kept ds (e.progress.kept ds (ground arith))),
          tt,
        )
    back-Yields first second (to_column i) (e, t) e' (lt, apart, own, there) =
        let top = parent_on_top first second (e, t) e' in
        let one : length (first.0.st.stacks i) ≡ 1 = rw there (omega arith) in
        let cut =
          Progress-Cut first.0 second.0 (two_cols ds 0 between 0) i 0 e'.progress
            (ground (arith, occurs-two_cols i ds 0 between 0, apart)) (omega (arith, one)) in
        let stays : col_top (second.0.st.stacks i) ≡ card =
          Cut-top (first.0.st.stacks i) (second.0.st.stacks i) 0 cut (omega (arith, one))
          ∙ rw there refl in
        (
          column_to_column-Recorded d st second.0 e'.recorded i ds
              (lt, q.below, (λ k. apart (sym k)), omega (arith, cut.shorter, one))
              (inr (rw (stays, top) q.fits)) (e'.progress.kept i own)
              (e'.progress.kept ds (e.progress.kept ds (ground arith))),
          tt,
        )

    -- the body of the loop, where the test passes
    returned-Yields : Yields (RecordedItem d st) (
        and_then (empty_two_cols d start ds 0 above 0) (λ first.
          and_then
            (empty_two_cols d first.0 ds 0 between 0)
            (λ second. back_to_column second.0 first.1 ds)))
    returned-Yields = and_then-Yields First (RecordedItem d st) _ _ First-Succeeds (λ first f.
        and_then-Yields (Second first.0) (RecordedItem d st) _
          (λ second. back_to_column second.0 first.1 ds) (Second-Succeeds first f)
          (λ second e. back-Yields first second first.1 f e (f.1.landed refl)))

  card_to_height-Yields :
      (ds c dc : ℕ)
      → ds < d.stacks_num
      → c < length (st.stacks ds)
      → dc + 1 < c
      → Yields (RecordedItem d st) (card_to_height d st ds c dc)
  unfolding card_to_height
  card_to_height-Yields ds c dc h k l =
      let col = st.stacks ds in
      let fits = is_parent_card (col_get_card col c) (col_get_card col dc) in
      let alone = not (is_parent_card (col_get_card col (dc + 1)) (col_get_card col dc)) in
      let room = leb (length col - (dc + 1)) (calc_num_vacant_slots d st) in
      if-Yields (RecordedItem d st) (fits && (alone && room)) _ (λ passes.
        let (fit, others) = both_true fits (alone && room) passes in
        let (bare, enough) = both_true alone room others in
        returned-Yields ds c dc
          (record { below = h; inside = k; deeper = l; fits = fit; room = ground (arith, enough) }))

  -- The states that `fc_solve_sfs_move_stack_cards_to_a_parent_on_the_same_stack` derives are what
  -- their recorded moves lead to; no assertion fails.
  pub same_stack-Yields :
      Yields (RecordedItem d st) (move_stack_cards_to_a_parent_on_the_same_stack d st)
  unfolding move_stack_cards_to_a_parent_on_the_same_stack
  same_stack-Yields = for_from-Yields (RecordedItem d st) 0 d.stacks_num _ (λ ds h k.
      for_from-Yields (RecordedItem d st) 0 (length (st.stacks ds)) _ (λ c h' k'.
        if-Yields (RecordedItem d st) _ _ (λ passes.
          for_from-Yields (RecordedItem d st) 0 (c - 1) _ (λ dc h'' k''.
            card_to_height-Yields ds c dc (omega arith) (omega arith) (omega arith)))))
