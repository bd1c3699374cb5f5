-- ===== src/Move.antt =====
-- move.c's fc_solve_apply_move, over the moves of fcs_move.h (internal_move_struct.h takes them as
-- they are, without FCS_USE_COMPACT_MOVE_TOKENS).
pub mod Sequences
pub mod Single
pub mod Conservation
pub mod Stack
pub mod Played
mod Tests
use investigate_lack_of_pgo.Prelude.{ℕ, zero, suc, ◌+◌, ◌-◌, List, Option, some, none, length}
use investigate_lack_of_pgo.Card.{Card}
use investigate_lack_of_pgo.State.{
  Column, State, Dims, col_push_card, col_pop_top, col_get_card, col_top, put_card_in_freecell,
  empty_freecell, set_col, increment_foundation,
}
use investigate_lack_of_pgo.State.Canonize.{Locs, canonize, canonize_with_locs}

-- FCS_MOVE_TYPE_*
pub data MoveType : Type 0 where
  stack_to_stack stack_to_freecell freecell_to_stack freecell_to_freecell : MoveType
  stack_to_foundation freecell_to_foundation flip_card deal_gypsy_talon : MoveType
  klondike_talon_to_stack klondike_flip_talon klondike_redeal_talon : MoveType
  seq_to_foundation canonize_move separator null : MoveType

-- fcs_move_t; `dest` is a column, a freecell or a foundation
pub record Move : Type 0 where
  pub type : MoveType
  pub src : ℕ
  pub dest : ℕ
  pub num_cards_in_seq : ℕ

-- the loop that pushes the cards of the sequence, from `i` on, with `rounds` of them left
unfoldable pub push_seq : State → ℕ → ℕ → ℕ → ℕ → ℕ → State
push_seq st src dest num zero i = st
push_seq st src dest num (suc rounds) i =
    let col = st.stacks src in
    let card = col_get_card col (length col - num + i) in
    push_seq (set_col st dest (col_push_card (st.stacks dest) card)) src dest num rounds (i + 1)

-- the loop that pops the cards
unfoldable pub pop_cards : State → ℕ → ℕ → State
unfolding col_pop_top
pop_cards st src zero = st
pop_cards st src (suc rounds) = pop_cards (set_col st src (col_pop_top (st.stacks src))) src rounds

-- the loop that takes a whole suit to its foundation
unfoldable pub seq_up : State → ℕ → ℕ → ℕ → State
unfolding col_pop_top
seq_up st src d zero = st
seq_up st src d (suc rounds) =
    seq_up (increment_foundation (set_col st src (col_pop_top (st.stacks src))) d) src d rounds

-- The state after the move, and the locations, where the caller passes any. Types without a case
-- in the switch leave the state as it is, flip_card too: card flipping is compiled out.
unfoldable pub apply_move : Dims → State → Option Locs → Move → State × Option Locs
unfolding push_seq pop_cards seq_up col_pop_top canonize canonize_with_locs
apply_move dims st locs m = elim m.type [
  | stack_to_stack ↦
      let pushed = push_seq st m.src m.dest m.num_cards_in_seq m.num_cards_in_seq 0 in
      (pop_cards pushed m.src m.num_cards_in_seq, locs)
  | freecell_to_stack ↦
      let pushed = set_col st m.dest (col_push_card (st.stacks m.dest) (st.freecells m.src)) in
      (empty_freecell pushed m.src, locs)
  | freecell_to_freecell ↦
      (empty_freecell (put_card_in_freecell st m.dest (st.freecells m.src)) m.src, locs)
  | stack_to_freecell ↦
      let col = st.stacks m.src in
      (put_card_in_freecell (set_col st m.src (col_pop_top col)) m.dest (col_top col), locs)
  | stack_to_foundation ↦
      (increment_foundation (set_col st m.src (col_pop_top (st.stacks m.src))) m.dest, locs)
  | freecell_to_foundation ↦ (increment_foundation (empty_freecell st m.src) m.dest, locs)
  | seq_to_foundation ↦ (seq_up st m.src m.dest 13, locs)
  | canonize_move ↦ elim locs [
    | some l ↦ let (st', l') = canonize_with_locs dims st l in (st', some l')
    | none ↦ (canonize dims st, none)
  ]
  | _ ↦ (st, locs)
]
