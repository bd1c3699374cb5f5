-- ===== src/Move/Single.antt =====
-- Each kind of move of a card or a sequence, when it is legal, keeps the count of every card.
use investigate_lack_of_pgo.Prelude.{
  ℕ, ◌+◌, ◌-◌, ◌*◌, ◌%◌, ◌≤◌, ◌<◌, ◌≡◌, ◌≢◌, refl, ◌∙◌, ap, arith, sum_below_zero, length,
}
use native.Mathlib.Nat.{zero-add}
use investigate_lack_of_pgo.Card.{Card, empty_card, card_rank, card_suit}
use investigate_lack_of_pgo.State.{
  State, Dims, col_pop_top, col_get_card, col_top, col_push_card, set_col, put_card_in_freecell,
  empty_freecell, increment_foundation,
}
use investigate_lack_of_pgo.State.Count.{
  is_card, occurrences, occurrences_lem, in_stacks_cong, in_freecells_cong, in_foundations_cong,
}
use investigate_lack_of_pgo.State.Changes.{
  in_column-pop, in_column-push, in_stacks-set_col, in_freecells-put, in_foundations-increment,
  is_card-empty,
}
use investigate_lack_of_pgo.Move.{Move, MoveType, push_seq, pop_cards}
use investigate_lack_of_pgo.Move.Sequences.{
  top_card, push_seq-rest, push_seq-src, push_seq-in_stacks, pop_cards-rest, pop_cards-in_stacks,
}

-- the card is the next one of foundation `f`
abbrev pub IsNext : State → ℕ → Card → Type 0
IsNext st f card = (card_suit card ≡ f % 4) × (card_rank card ≡ st.foundations f + 1)

-- What the callers see to before they make a move of the type from `src` to `dest`.
abbrev pub IsLegalOf : MoveType → Dims → State → ℕ → ℕ → ℕ → Type 0
IsLegalOf MoveType.stack_to_stack d st src dest num =
    (src < d.stacks_num) × (dest < d.stacks_num) × (dest ≢ src) × (num ≤ length (st.stacks src))
IsLegalOf MoveType.freecell_to_stack d st src dest num =
    (src < d.freecells_num) × (dest < d.stacks_num)
IsLegalOf MoveType.freecell_to_freecell d st src dest num =
    (src < d.freecells_num)
    × (dest < d.freecells_num)
    × (dest ≢ src)
    × (st.freecells dest ≡ empty_card)
IsLegalOf MoveType.stack_to_freecell d st src dest num =
    (src < d.stacks_num)
    × (dest < d.freecells_num)
    × (1 ≤ length (st.stacks src))
    × (st.freecells dest ≡ empty_card)
IsLegalOf MoveType.stack_to_foundation d st src dest num =
    (src < d.stacks_num)
    × (dest < d.decks_num * 4)
    × (1 ≤ length (st.stacks src))
    × IsNext st dest (col_top (st.stacks src))
IsLegalOf MoveType.freecell_to_foundation d st src dest num =
    (src < d.freecells_num) × (dest < d.decks_num * 4) × IsNext st dest (st.freecells src)
IsLegalOf MoveType.seq_to_foundation d st src dest num =
    (src < d.stacks_num)
    × (dest < d.decks_num * 4)
    × (13 ≤ length (st.stacks src))
    × ((j : ℕ)
        → j < 13
        → (card_suit (col_get_card (st.stacks src) (length (st.stacks src) - 1 - j)) ≡ dest % 4)
          × (card_rank (col_get_card (st.stacks src) (length (st.stacks src) - 1 - j))
              ≡ st.foundations dest + 1 + j))
IsLegalOf _ d st src dest num = Unit {0}

abbrev pub IsLegal : Dims → State → Move → Type 0
IsLegal d st m = IsLegalOf m.type d st m.src m.dest m.num_cards_in_seq

module _ (suit rank : ℕ) (positive : 1 ≤ rank) (d : Dims) where
  pub stack_to_stack-occurrences :
      (st : State) (src dest num : ℕ)
      → IsLegalOf MoveType.stack_to_stack d st src dest num
      → occurrences suit rank d (pop_cards (push_seq st src dest num num 0) src num)
        ≡ occurrences suit rank d st
  stack_to_stack-occurrences st src dest num (a, b, ne, k) =
      let st' = push_seq st src dest num num 0 in
      let st'' = pop_cards st' src num in
      let rest = push_seq-rest st src dest num num 0 in
      let rest' = pop_cards-rest st' src num in
      let col : st'.stacks src ≡ st.stacks src = push_seq-src st src dest num num 0 ne in
      let pushed =
        push_seq-in_stacks suit rank d.stacks_num st src dest num num 0 (st.stacks src) ne b refl in
      let popped = pop_cards-in_stacks suit rank d.stacks_num st' src num a (rw col k) in
      omega (
        arith,
        occurrences_lem suit rank d st'',
        occurrences_lem suit rank d st,
        in_freecells_cong suit rank d.freecells_num st'' st (rest'.cells ∙ rest.cells),
        in_foundations_cong suit rank (d.decks_num * 4) st'' st
            (rest'.foundations ∙ rest.foundations),
        rw zero-add at pushed,
        sum_below_zero (top_card suit rank d.stacks_num (st.stacks src) num),
        rw col at popped,
      )

  pub stack_to_foundation-occurrences :
      (st : State) (src dest : ℕ)
      → IsLegalOf MoveType.stack_to_foundation d st src dest 0
      → occurrences suit rank d
          (increment_foundation (set_col st src (col_pop_top (st.stacks src))) dest)
        ≡ occurrences suit rank d st
  stack_to_foundation-occurrences st src dest (a, b, k, (same_suit, next)) =
      let col = st.stacks src in
      let st' = set_col st src (col_pop_top col) in
      let st'' = increment_foundation st' dest in
      omega (
        arith,
        occurrences_lem suit rank d st'',
        occurrences_lem suit rank d st,
        in_foundations-increment suit rank (d.decks_num * 4) st' dest (col_top col) b same_suit
            next,
        in_foundations_cong suit rank (d.decks_num * 4) st' st refl,
        in_freecells_cong suit rank d.freecells_num st'' st refl,
        in_stacks_cong suit rank d.stacks_num st'' st' refl,
        in_stacks-set_col suit rank d.stacks_num st src (col_pop_top col) a,
        in_column-pop suit rank col k,
      )

  pub freecell_to_stack-occurrences :
      (st : State) (src dest : ℕ)
      → IsLegalOf MoveType.freecell_to_stack d st src dest 0
      → occurrences suit rank d
          (empty_freecell (set_col st dest (col_push_card (st.stacks dest) (st.freecells src))) src)
        ≡ occurrences suit rank d st
  freecell_to_stack-occurrences st src dest (a, b) =
      let card = st.freecells src in
      let st' = set_col st dest (col_push_card (st.stacks dest) card) in
      let st'' = empty_freecell st' src in
      omega (
        arith,
        occurrences_lem suit rank d st'',
        occurrences_lem suit rank d st,
        in_foundations_cong suit rank (d.decks_num * 4) st'' st refl,
        in_freecells-put suit rank d.freecells_num st' src empty_card a,
        in_freecells_cong suit rank d.freecells_num st' st refl,
        is_card-empty suit rank positive,
        in_stacks_cong suit rank d.stacks_num st'' st' refl,
        in_stacks-set_col suit rank d.stacks_num st dest (col_push_card (st.stacks dest) card) b,
        in_column-push suit rank (st.stacks dest) card,
      )

  pub freecell_to_freecell-occurrences :
      (st : State) (src dest : ℕ)
      → IsLegalOf MoveType.freecell_to_freecell d st src dest 0
      → occurrences suit rank d
          (empty_freecell (put_card_in_freecell st dest (st.freecells src)) src)
        ≡ occurrences suit rank d st
  freecell_to_freecell-occurrences st src dest (a, b, ne, free) =
      let card = st.freecells src in
      let st' = put_card_in_freecell st dest card in
      let st'' = empty_freecell st' src in
      let kept : st'.freecells src ≡ card = ground arith in
      omega (
        arith,
        occurrences_lem suit rank d st'',
        occurrences_lem suit rank d st,
        in_foundations_cong suit rank (d.decks_num * 4) st'' st refl,
        in_stacks_cong suit rank d.stacks_num st'' st refl,
        in_freecells-put suit rank d.freecells_num st dest card b,
        in_freecells-put suit rank d.freecells_num st' src empty_card a,
        ap (is_card suit rank) kept,
        ap (is_card suit rank) free,
        is_card-empty suit rank positive,
      )

  pub stack_to_freecell-occurrences :
      (st : State) (src dest : ℕ)
      → IsLegalOf MoveType.stack_to_freecell d st src dest 0
      → occurrences suit rank d (
          put_card_in_freecell
            (set_col st src (col_pop_top (st.stacks src)))
            dest
            (col_top (st.stacks src)))
        ≡ occurrences suit rank d st
  stack_to_freecell-occurrences st src dest (a, b, k, free) =
      let col = st.stacks src in
      let st' = set_col st src (col_pop_top col) in
      let st'' = put_card_in_freecell st' dest (col_top col) in
      omega (
        arith,
        occurrences_lem suit rank d st'',
        occurrences_lem suit rank d st,
        in_foundations_cong suit rank (d.decks_num * 4) st'' st refl,
        in_freecells-put suit rank d.freecells_num st' dest (col_top col) b,
        in_freecells_cong suit rank d.freecells_num st' st refl,
        ap (is_card suit rank) free,
        is_card-empty suit rank positive,
        in_stacks_cong suit rank d.stacks_num st'' st' refl,
        in_stacks-set_col suit rank d.stacks_num st src (col_pop_top col) a,
        in_column-pop suit rank col k,
      )

  pub freecell_to_foundation-occurrences :
      (st : State) (src dest : ℕ)
      → IsLegalOf MoveType.freecell_to_foundation d st src dest 0
      → occurrences suit rank d (increment_foundation (empty_freecell st src) dest)
        ≡ occurrences suit rank d st
  freecell_to_foundation-occurrences st src dest (a, b, (same_suit, next)) =
      let st' = empty_freecell st src in
      let st'' = increment_foundation st' dest in
      omega (
        arith,
        occurrences_lem suit rank d st'',
        occurrences_lem suit rank d st,
        in_foundations-increment suit rank (d.decks_num * 4) st' dest (st.freecells src) b same_suit
            next,
        in_foundations_cong suit rank (d.decks_num * 4) st' st refl,
        in_freecells_cong suit rank d.freecells_num st'' st' refl,
        in_freecells-put suit rank d.freecells_num st src empty_card a,
        is_card-empty suit rank positive,
        in_stacks_cong suit rank d.stacks_num st'' st refl,
      )
