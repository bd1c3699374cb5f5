-- ===== src/State.antt =====
-- state.h and state.c: the layout of a game state, the moves of single cards in it, and the order
-- on columns. A column is the list of its cards from the bottom to the top; its length byte is the
-- list's length. An array is a function of its index.
pub mod Orders
pub mod Canonize
pub mod Validity
pub mod Count
pub mod Changes
pub mod Marks
pub mod ValidityLaws
mod Tests
use Prim.Native.Nat.{compare, Ordering}
use investigate_lack_of_pgo.Prelude.{
  ℕ, zero, suc, ◌+◌, ◌-◌, Bool, true, false, List, [], ◌∷◌, ◌++◌, update, length, get_or,
}
use investigate_lack_of_pgo.Card.{Card, empty_card}

abbrev pub Column : Type 0
Column = List Card

-- fcs_struct_state_t
pub record State : Type 0 where
  pub stacks : ℕ → Column
  pub freecells : ℕ → Card
  pub foundations : ℕ → ℕ

-- the arguments freecells_num, stacks_num and decks_num that go with a state
pub record Dims : Type 0 where
  pub freecells_num : ℕ
  pub stacks_num : ℕ
  pub decks_num : ℕ

-- fcs_col_push_card
abbrev pub col_push_card : Column → Card → Column
col_push_card col card = col ++ card ∷ []

-- fcs_col_pop_top; the byte of the card that is gone is not kept
unfoldable pub col_pop_top : Column → Column
col_pop_top [] = []
col_pop_top (x ∷ []) = []
col_pop_top (x ∷ y ∷ col) = x ∷ col_pop_top (y ∷ col)

-- fcs_col_get_card
abbrev pub col_get_card : Column → ℕ → Card
col_get_card col c = get_or col c empty_card

-- the card that fcs_col_pop_card takes
abbrev pub col_top : Column → Card
col_top col = col_get_card col (length col - 1)

-- fcs_put_card_in_freecell
abbrev pub put_card_in_freecell : State → ℕ → Card → State
put_card_in_freecell s f card = record s { freecells = update s.freecells f card }

-- fcs_empty_freecell
abbrev pub empty_freecell : State → ℕ → State
empty_freecell s f = put_card_in_freecell s f empty_card

abbrev pub set_col : State → ℕ → Column → State
set_col s i col = record s { stacks = update s.stacks i col }

-- fcs_increment_foundation
abbrev pub increment_foundation : State → ℕ → State
increment_foundation s d = record s { foundations = update s.foundations d (s.foundations d + 1) }

-- The sign of fc_solve_card_compare; card bytes are not negative.
abbrev pub card_compare : Card → Card → Ordering
card_compare a b = compare a b

-- The sign of fc_solve_stack_compare_for_comparison: card by card, then by length.
unfoldable pub stack_compare : Column → Column → Ordering
stack_compare [] [] = Ordering.eq
stack_compare [] (y ∷ b) = Ordering.lt
stack_compare (x ∷ a) [] = Ordering.gt
stack_compare (x ∷ a) (y ∷ b) = elim (card_compare x y) [
  | Ordering.lt ↦ Ordering.lt
  | Ordering.eq ↦ stack_compare a b
  | Ordering.gt ↦ Ordering.gt
]

-- `… < 0`
abbrev pub is_negative : Ordering → Bool
is_negative c = elim c [ Ordering.lt ↦ true | _ ↦ false ]
