-- ===== src/State/Validity.antt =====
-- fc_solve_check_state_validity: every card of the decks stands in the state once for each deck.
use investigate_lack_of_pgo.Prelude.{
  ℕ, zero, suc, ◌+◌, ◌*◌, ◌%◌, ltb, ◌==◌, ◌&&◌, if◌then◌else◌, [], ◌∷◌, Option, some, none,
}
use investigate_lack_of_pgo.Card.{Card, make_card, card_rank, card_suit, card_is_empty}
use investigate_lack_of_pgo.State.{Column, State, Dims}

-- `cards[suit][rank]`
abbrev pub Table : Type 0
Table = ℕ → ℕ → ℕ

-- `cards[suit][rank]++`
unfoldable pub bump : Table → ℕ → ℕ → Table
bump t suit rank = λ s r. if suit == s && rank == r then t s r + 1 else t s r

-- the cards from the ace up to `n` in a foundation of the suit
unfoldable pub mark_up_to : Table → ℕ → ℕ → Table
unfolding bump
mark_up_to t suit zero = t
mark_up_to t suit (suc n) = bump (mark_up_to t suit n) suit (suc n)

-- the first `n` foundations
unfoldable pub mark_foundations : Table → State → ℕ → Table
unfolding mark_up_to
mark_foundations t st zero = t
mark_foundations t st (suc n) = mark_up_to (mark_foundations t st n) (n % 4) (st.foundations n)

-- the first `n` freecells
unfoldable pub mark_freecells : Table → State → ℕ → Table
unfolding bump card_is_empty card_suit card_rank
mark_freecells t st zero = t
mark_freecells t st (suc n) =
    let before = mark_freecells t st n in
    let card = st.freecells n in
    if card_is_empty card then before else bump before (card_suit card) (card_rank card)

-- the cards of a column, `none` at an empty slot
unfoldable pub mark_column : Table → Column → Option Table
unfolding bump card_is_empty card_suit card_rank
mark_column t [] = some t
mark_column t (card ∷ col) =
    let rest = mark_column (bump t (card_suit card) (card_rank card)) col in
    if card_is_empty card then none else rest

-- the columns from `s` on, with `n` of them left
unfoldable pub mark_columns : Table → State → ℕ → ℕ → Option Table
unfolding mark_column
mark_columns t st s zero = some t
mark_columns t st s (suc n) = elim (mark_column t (st.stacks s)) [
  | none ↦ none
  | some t' ↦ mark_columns t' st (s + 1) n
]

-- fcs_state_validity_ret_t with `*misplaced_card`; a premature end of the input is the parser's
pub data Validity : Type 0 where
  valid : Validity
  missing_card : Card → Validity
  extra_card : Card → Validity
  empty_slot : Validity

-- the ranks of a suit from `rank` on, with `n` of them left; `otherwise` is what follows
unfoldable pub check_ranks : Table → ℕ → ℕ → ℕ → ℕ → Validity → Validity
check_ranks t decks suit rank zero otherwise = otherwise
check_ranks t decks suit rank (suc n) otherwise =
    let rest = check_ranks t decks suit (rank + 1) n otherwise in
    let card = make_card rank suit in
    if t suit rank == decks
    then rest
    else if ltb (t suit rank) decks
    then missing_card card
    else extra_card card

-- the suits from `suit` on, with `n` of them left
unfoldable pub check_suits : Table → ℕ → ℕ → ℕ → Validity
unfolding check_ranks
check_suits t decks suit zero = valid
check_suits t decks suit (suc n) = check_ranks t decks suit 1 13 (check_suits t decks (suit + 1) n)

-- the cards of the foundations and the freecells
unfoldable pub marked_cells : State → Dims → Table
unfolding mark_foundations mark_freecells
marked_cells st d =
    mark_freecells (mark_foundations (λ s r. 0) st (d.decks_num * 4)) st d.freecells_num

unfoldable pub check_state_validity : State → Dims → Validity
unfolding marked_cells mark_columns check_suits
check_state_validity st d = elim (mark_columns (marked_cells st d) st 0 d.stacks_num) [
  | none ↦ empty_slot
  | some t ↦ check_suits t d.decks_num 0 4
]
