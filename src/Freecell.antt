-- ===== src/Freecell.antt =====
-- freecell.c: the tests that derive states from a state by moves, with the rules of FreeCell
-- (FCS_FREECELL_ONLY): a column that is empty takes any card, and sequences alternate in colour.
-- An `assert` that fails ends the program; the result is then `none`.
pub mod Loops
pub mod Recorded
pub mod Rules
pub mod Primitives
pub mod Founds
pub mod FoundsRecorded
pub mod Empty
pub mod Covered
pub mod SameStack
pub mod Sequence
pub mod Positions
pub mod Sort
pub mod OnStacks
pub mod DifferentStacks
pub mod DifferentParent
pub mod FreeStacks
pub mod Atomic
pub mod Prune
pub mod Tidy
pub mod Suited
pub mod Explore
pub mod Vacant
pub mod VacantRecorded
mod Tests
use investigate_lack_of_pgo.Prelude.{
  ℕ, zero, suc, ◌+◌, ◌-◌, ◌*◌, ◌%◌, Bool, true, false, not, ◌&&◌, ◌==◌, Option, some, none, List,
  [], ◌∷◌, length, update,
}
use investigate_lack_of_pgo.Card.{Card, card_rank, card_suit, card_is_empty}
use investigate_lack_of_pgo.State.{
  State, Dims, Column, col_push_card, col_pop_top, col_get_card, col_top, set_col,
  put_card_in_freecell, empty_freecell, increment_foundation,
}
use investigate_lack_of_pgo.Move.{Move, MoveType, pop_cards}
use investigate_lack_of_pgo.Move.Stack.{MoveStack, params_push, non_seq_push, push_1card_seq}

-- fcs_is_parent_card
unfoldable pub is_parent_card : Card → Card → Bool
unfolding card_rank card_suit
is_parent_card child parent =
    (card_rank child + 1 == card_rank parent) && not (card_suit child % 2 == card_suit parent % 2)

-- fcs_freecell_is_empty
abbrev pub freecell_is_empty : State → ℕ → Bool
freecell_is_empty st i = card_is_empty (st.freecells i)

-- fcs_card_is_valid
abbrev pub card_is_valid : Card → Bool
card_is_valid card = not (card_is_empty card)

-- The state that a test derives, with the moves so far. `copied` is stacks_copy_on_write_flags:
-- the columns that are the new state's own. `intact` says that no column was written that was not,
-- such a write being one to a state that is already in the collection.
pub record Deriving : Type 0 where
  pub st : State
  pub moves : MoveStack
  pub copied : ℕ → Bool
  pub intact : Bool

-- fc_solve_sfs_check_state_begin, the bookkeeping of the search left out
abbrev pub check_state_begin : State → Deriving
check_state_begin st = record { st = st; moves = []; copied = λ i. false; intact = true }

-- fcs_copy_stack
abbrev pub copy_stack : Deriving → ℕ → Deriving
copy_stack x i = record x { copied = update x.copied i true }

-- a column's top card to a freecell
abbrev pub column_to_freecell : Deriving → ℕ → ℕ → Deriving
column_to_freecell x src fc = record {
  st =
      put_card_in_freecell (set_col x.st src (col_pop_top (x.st.stacks src))) fc
        (col_top (x.st.stacks src));
  moves = non_seq_push x.moves MoveType.stack_to_freecell src fc;
  copied = x.copied;
  intact = x.intact && x.copied src;
}

-- a column's top card to another column
unfoldable pub column_to_column : Deriving → ℕ → ℕ → Deriving
column_to_column x src dest =
    let popped = set_col x.st src (col_pop_top (x.st.stacks src)) in
    record {
      st = set_col popped dest (col_push_card (popped.stacks dest) (col_top (x.st.stacks src)));
      moves = push_1card_seq x.moves src dest;
      copied = x.copied;
      intact = (x.intact && x.copied src) && x.copied dest;
    }

-- a card, of the freecell, to a column
abbrev pub freecell_to_column : Deriving → Card → ℕ → ℕ → Deriving
freecell_to_column x card fc dest = record {
  st = empty_freecell (set_col x.st dest (col_push_card (x.st.stacks dest) card)) fc;
  moves = non_seq_push x.moves MoveType.freecell_to_stack fc dest;
  copied = x.copied;
  intact = x.intact && x.copied dest;
}

-- a column's top card to a foundation
abbrev pub column_to_foundation : Deriving → ℕ → ℕ → Deriving
column_to_foundation x src f = record {
  st = increment_foundation (set_col x.st src (col_pop_top (x.st.stacks src))) f;
  moves = non_seq_push x.moves MoveType.stack_to_foundation src f;
  copied = x.copied;
  intact = x.intact && x.copied src;
}

-- a freecell's card to a foundation
abbrev pub freecell_to_foundation : Deriving → ℕ → ℕ → Deriving
freecell_to_foundation x fc f = record x {
  st = increment_foundation (empty_freecell x.st fc) f;
  moves = non_seq_push x.moves MoveType.freecell_to_foundation fc f;
}

-- the first loop of fc_solve_move_sequence_function, from height `i` on
unfoldable pub push_from : State → ℕ → ℕ → ℕ → ℕ → State
push_from st dest src i zero = st
push_from st dest src i (suc rounds) =
    let card = col_get_card (st.stacks src) i in
    push_from (set_col st dest (col_push_card (st.stacks dest) card)) dest src (i + 1) rounds

-- fc_solve_move_sequence_function, where `start` is at most `end + 1`
unfoldable pub move_sequence : Deriving → ℕ → ℕ → ℕ → ℕ → Deriving
unfolding push_from pop_cards
move_sequence x dest src start end =
    let num = end + 1 - start in
    record {
      st = pop_cards (push_from x.st dest src start num) src num;
      moves = params_push x.moves MoveType.stack_to_stack src dest num;
      copied = x.copied;
      intact = (x.intact && x.copied src) && x.copied dest;
    }

-- A state that was derived, with its state_context_value, before the collection canonizes it
abbrev pub Derived : Type 0
Derived = Deriving × ℕ

-- fc_solve_sfs_check_state_end's part in the list of derived states
abbrev pub check_state_end : Deriving → ℕ → Option (List Derived)
check_state_end x context = some ((x, context) ∷ [])
