-- ===== src/Move/Conservation.antt =====
-- A legal move moves cards and neither loses nor duplicates one.
use investigate_lack_of_pgo.Prelude.{
  ℕ, zero, suc, ◌+◌, ◌-◌, ◌*◌, ◌%◌, ◌≤◌, ◌<◌, ◌≡◌, refl, ◌∙◌, ap, Option, some, none, arith, length,
}
use investigate_lack_of_pgo.Card.{card_rank, card_suit}
use investigate_lack_of_pgo.State.{
  State, Dims, col_pop_top, col_get_card, set_col, increment_foundation,
}
use investigate_lack_of_pgo.InsertionSort.Sorted.{insertion_sort-tally}
use investigate_lack_of_pgo.State.Orders.{stack_order, card_order}
use investigate_lack_of_pgo.State.Canonize.{Locs, canonize, canonize_with_locs-same}
use investigate_lack_of_pgo.State.Count.{is_card, in_column, occurrences}
use investigate_lack_of_pgo.State.Changes.{length-col_pop_top, get-col_pop_top}
use investigate_lack_of_pgo.Move.{Move, MoveType, apply_move, seq_up}
use investigate_lack_of_pgo.Move.Single.{
  IsLegal, IsLegalOf, stack_to_stack-occurrences, stack_to_foundation-occurrences,
  freecell_to_stack-occurrences, freecell_to_freecell-occurrences, stack_to_freecell-occurrences,
  freecell_to_foundation-occurrences,
}

-- The top `n` cards of a column are the next ones of a foundation, from the top down.
abbrev IsRun : State → ℕ → ℕ → ℕ → Type 0
IsRun st src f n =
    (j : ℕ)
    → j < n
    → (card_suit (col_get_card (st.stacks src) (length (st.stacks src) - 1 - j)) ≡ f % 4)
      × (card_rank (col_get_card (st.stacks src) (length (st.stacks src) - 1 - j))
          ≡ st.foundations f + 1 + j)

-- one card of a run goes up
abbrev raise : State → ℕ → ℕ → State
raise st src f = increment_foundation (set_col st src (col_pop_top (st.stacks src))) f

raise-col : (st : State) (src f : ℕ) → (raise st src f).stacks src ≡ col_pop_top (st.stacks src)
raise-col st src f = ground arith

raise-foundation : (st : State) (src f : ℕ) → (raise st src f).foundations f ≡ st.foundations f + 1
raise-foundation st src f = ground arith

raise-IsRun :
    (st : State) (src f n : ℕ)
    → suc n ≤ length (st.stacks src)
    → IsRun st src f (suc n)
    → IsRun (raise st src f) src f n
raise-IsRun st src f n k run j h =
    let col = st.stacks src in
    let under = length col - 1 - suc j in
    let at : length (col_pop_top col) - 1 - j ≡ under = omega (arith, length-col_pop_top col) in
    let card : col_get_card (col_pop_top col) (length (col_pop_top col) - 1 - j)
        ≡ col_get_card col under =
      ap (col_get_card (col_pop_top col)) at ∙ get-col_pop_top col under (omega arith) in
    let (same_suit, next) = run (suc j) (omega arith) in
    rw (raise-col st src f) (
      ap card_suit card ∙ same_suit,
      ap card_rank card ∙ next ∙ omega (arith, raise-foundation st src f),
    )

module _ (suit rank : ℕ) (positive : 1 ≤ rank) (d : Dims) where
  seq_up-occurrences :
      (st : State) (src f n : ℕ)
      → src < d.stacks_num
      → f < d.decks_num * 4
      → n ≤ length (st.stacks src)
      → IsRun st src f n
      → occurrences suit rank d (seq_up st src f n) ≡ occurrences suit rank d st
  unfolding seq_up
  seq_up-occurrences st src f zero a b k run = refl
  seq_up-occurrences st src f (suc n) a b k run =
      let first = run 0 (omega arith) in
      let under : length (st.stacks src) - 1 - 0 ≡ length (st.stacks src) - 1 = omega arith in
      let top = rw under at first in
      let shorter : n ≤ length ((raise st src f).stacks src) =
        rw (raise-col st src f) (omega (arith, length-col_pop_top (st.stacks src))) in
      seq_up-occurrences (raise st src f) src f n a b shorter (raise-IsRun st src f n k run)
      ∙ stack_to_foundation-occurrences suit rank positive d st src f
          (a, b, omega arith, (top.0, top.1 ∙ omega arith))

  pub canonize-occurrences :
      (st : State) → occurrences suit rank d (canonize d st) ≡ occurrences suit rank d st
  unfolding canonize occurrences
  canonize-occurrences st = omega (
    arith,
    insertion_sort-tally stack_order (in_column suit rank) d.stacks_num st.stacks,
    insertion_sort-tally card_order (is_card suit rank) d.freecells_num st.freecells,
  )

  move_of_type-occurrences :
      (st : State) (locs : Option Locs) (t : MoveType) (src dest num : ℕ)
      → IsLegalOf t d st src dest num
      → occurrences suit rank d
          (apply_move d st locs
            (record { type = t; src = src; dest = dest; num_cards_in_seq = num })).0
        ≡ occurrences suit rank d st
  unfolding apply_move
  move_of_type-occurrences st locs MoveType.stack_to_stack src dest num h =
      stack_to_stack-occurrences suit rank positive d st src dest num h
  move_of_type-occurrences st locs MoveType.freecell_to_stack src dest num h =
      freecell_to_stack-occurrences suit rank positive d st src dest h
  move_of_type-occurrences st locs MoveType.freecell_to_freecell src dest num h =
      freecell_to_freecell-occurrences suit rank positive d st src dest h
  move_of_type-occurrences st locs MoveType.stack_to_freecell src dest num h =
      stack_to_freecell-occurrences suit rank positive d st src dest h
  move_of_type-occurrences st locs MoveType.stack_to_foundation src dest num h =
      stack_to_foundation-occurrences suit rank positive d st src dest h
  move_of_type-occurrences st locs MoveType.freecell_to_foundation src dest num h =
      freecell_to_foundation-occurrences suit rank positive d st src dest h
  move_of_type-occurrences st locs MoveType.seq_to_foundation src dest num (a, b, k, run) =
      seq_up-occurrences st src dest 13 a b k run
  move_of_type-occurrences st (some l) MoveType.canonize_move src dest num h =
      ap (occurrences suit rank d) (canonize_with_locs-same d st l) ∙ canonize-occurrences st
  move_of_type-occurrences st none MoveType.canonize_move src dest num h = canonize-occurrences st
  move_of_type-occurrences st locs _ src dest num h = refl

  -- `fc_solve_apply_move` keeps the number of times that each card stands in the state, for every
  -- move that meets the checks of its callers, with the locations or without.
  pub apply_move-occurrences :
      (st : State) (locs : Option Locs) (m : Move)
      → IsLegal d st m
      → occurrences suit rank d (apply_move d st locs m).0 ≡ occurrences suit rank d st
  apply_move-occurrences st locs m h =
      move_of_type-occurrences st locs m.type m.src m.dest m.num_cards_in_seq h

-- A game: legal moves one after the other.
pub data Plays (d : Dims) (st : State) : State → Type 0 where
  start : Plays d st st
  move :
      {st' : State} (locs : Option Locs) (m : Move)
      → Plays d st st'
      → IsLegal d st' m
      → Plays d st (apply_move d st' locs m).0

-- No game changes the number of times that a card stands in the state.
pub Plays-occurrences :
    (suit rank : ℕ)
    → 1 ≤ rank
    → (d : Dims) {s t : State} → Plays d s t
    → occurrences suit rank d t ≡ occurrences suit rank d s
Plays-occurrences suit rank h d start = refl
Plays-occurrences suit rank h d (move {st' = st'} locs m before legal) =
    apply_move-occurrences suit rank h d st' locs m legal ∙ Plays-occurrences suit rank h d before
