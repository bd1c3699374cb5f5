-- ===== src/Freecell/Prune.antt =====
-- fc_solve_sfs_raymond_prune: cards go to the foundations as long as they are safe there.
pub mod Pruned
use investigate_lack_of_pgo.Prelude.{
  ℕ, zero, suc, ◌+◌, ◌*◌, ◌%◌, Bool, not, ◌&&◌, ◌==◌, ltb, if◌then◌else◌, all_below, Option, some,
  none, length, sum_below,
}
use investigate_lack_of_pgo.Card.{Card, card_rank, card_suit, card_is_empty}
use investigate_lack_of_pgo.State.{State, Dims, col_top}
use investigate_lack_of_pgo.Freecell.{
  Deriving, card_is_valid, check_state_begin, copy_stack, column_to_foundation,
  freecell_to_foundation,
}
use investigate_lack_of_pgo.Freecell.Loops.{find_from}
use investigate_lack_of_pgo.Freecell.Founds.{takes}

-- the other foundation is not below rank - 2 - (the colours are the same)
unfoldable pub is_close : State → Card → ℕ → Bool
unfolding card_rank card_suit
is_close st card other = not (
    ltb (st.foundations other + 2 + (if other % 2 == card_suit card % 2 then 1 else 0))
      (card_rank card))

-- calc_foundation_to_put_card_on, `none` for -1
unfoldable pub calc_foundation_to_put_card_on : Dims → State → Card → Option ℕ
unfolding is_close all_below find_from card_suit
calc_foundation_to_put_card_on d st card =
    let deck =
      find_from (λ deck. takes st card deck && all_below (d.decks_num * 4) (is_close st card)) 0
        d.decks_num in
    if ltb deck d.decks_num then some (deck * 4 + card_suit card) else none

-- the body of the loop over the columns, `none` where no card moves
unfoldable pub prune_column : Dims → ℕ → Deriving → Option Deriving
unfolding calc_foundation_to_put_card_on
prune_column d stack_idx x =
    let col = x.st.stacks stack_idx in
    let dest = calc_foundation_to_put_card_on d x.st (col_top col) in
    if length col == 0 then none else elim dest [
      | none ↦ none
      | some f ↦ some (column_to_foundation (copy_stack x stack_idx) stack_idx f)
    ]

-- the body of the loop over the freecells
unfoldable pub prune_freecell : Dims → ℕ → Deriving → Option Deriving
unfolding calc_foundation_to_put_card_on
prune_freecell d fc x =
    let card = x.st.freecells fc in
    let dest = calc_foundation_to_put_card_on d x.st card in
    if card_is_valid card
    then elim dest [ none ↦ none | some f ↦ some (freecell_to_foundation x fc f) ]
    else none

-- a loop over indices from `i` on, which counts the cards moved
unfoldable pub visit : (ℕ → Deriving → Option Deriving) → ℕ → ℕ → Deriving → ℕ → Deriving × ℕ
visit body i zero x moved = (x, moved)
visit body i (suc rounds) x moved = elim (body i x) [
  | none ↦ visit body (i + 1) rounds x moved
  | some y ↦ visit body (i + 1) rounds y (moved + 1)
]

-- the body of the `do` loop, with num_cards_moved
unfoldable pub prune_round : Dims → Deriving → Deriving × ℕ
unfolding visit prune_column prune_freecell
prune_round d x =
    let (y, moved) = visit (prune_column d) 0 d.stacks_num x 0 in
    visit (prune_freecell d) 0 d.freecells_num y moved

-- The `do` loop on fuel, with num_total_cards_moved; `none` if the fuel runs out.
unfoldable pub prune_loop : ℕ → Dims → Deriving → ℕ → Option (Deriving × ℕ)
unfolding prune_round
prune_loop zero d x total = none
prune_loop (suc fuel) d x total =
    let (y, moved) = prune_round d x in
    let rest = prune_loop fuel d y (total + moved) in
    if moved == 0 then some (y, total + moved) else rest

-- How many cards there are in the columns and freecells.
unfoldable pub cards_left : Dims → State → ℕ
unfolding sum_below
cards_left d st =
    sum_below d.stacks_num (λ i. length (st.stacks i))
    + sum_below d.freecells_num (λ i. if card_is_empty (st.freecells i) then 0 else 1)

-- The state that fc_solve_sfs_raymond_prune follows, when the number of the cards moved is not 0; the
-- fuel is the number of the cards that there are to move, and one round more.
unfoldable pub raymond_prune : Dims → State → Option (Deriving × ℕ)
unfolding prune_loop cards_left
raymond_prune d st = prune_loop (cards_left d st + 1) d (check_state_begin st) 0
