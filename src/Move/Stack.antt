-- ===== src/Move/Stack.antt =====
-- move.h: the stack of moves. It is the list of its moves, the last one pushed first; the vector
-- that the code keeps them in grows as needed, and their number is an unsigned short.
use investigate_lack_of_pgo.Prelude.{
  ℕ, Option, some, none, ◌>>=◌, List, [], ◌∷◌, length, ◌==◌, if◌then◌else◌,
}
use investigate_lack_of_pgo.State.{State, Dims}
use investigate_lack_of_pgo.Move.{Move, MoveType, apply_move}

abbrev pub MoveStack : Type 0
MoveStack = List Move

-- USHRT_MAX
abbrev pub max_num_moves : ℕ
max_num_moves = 65535

-- fcs_move_stack_push: where the number of moves wraps around to 0, the code writes in front of the
-- vector, for which `none` stands
unfoldable pub move_stack_push : MoveStack → Move → Option MoveStack
move_stack_push stack move = if length stack == max_num_moves then none else some (move ∷ stack)

-- fcs_move_stack_params_push, onto a stack with fewer moves than `max_num_moves`: the stack of a test
-- starts empty and only grows, so that it was such a stack at each push where it is one in the end
abbrev pub params_push : MoveStack → MoveType → ℕ → ℕ → ℕ → MoveStack
params_push stack type src dest num =
    record { type = type; src = src; dest = dest; num_cards_in_seq = num } ∷ stack

-- fcs_move_stack_non_seq_push
abbrev pub non_seq_push : MoveStack → MoveType → ℕ → ℕ → MoveStack
non_seq_push stack type src dest = params_push stack type src dest 1

-- fcs_push_1card_seq
abbrev pub push_1card_seq : MoveStack → ℕ → ℕ → MoveStack
push_1card_seq stack src dest = params_push stack MoveType.stack_to_stack src dest 1

-- fc_solve_move_stack_pop: the move and what is left, `none` from an empty stack
abbrev pub move_stack_pop : MoveStack → Option (Move × MoveStack)
move_stack_pop [] = none
move_stack_pop (move ∷ stack) = some (move, stack)

-- fc_solve_move_stack_swallow_stack, with the moves that it pops
unfoldable pub swallow_stack : MoveStack → MoveStack → Option MoveStack
unfolding move_stack_push
swallow_stack stack [] = some stack
swallow_stack stack (move ∷ src_stack) = do
  next ← move_stack_push stack move
  swallow_stack next src_stack

-- the same with room for any number of moves
unfoldable pub pour : MoveStack → MoveStack → MoveStack
pour stack [] = stack
pour stack (move ∷ src_stack) = pour (move ∷ stack) src_stack

-- The state after moves that were pushed as they were made, and after moves that are popped one
-- after the other.
unfoldable pub replay : Dims → State → MoveStack → State
replay dims st [] = st
replay dims st (move ∷ stack) = (apply_move dims (replay dims st stack) none move).0

unfoldable pub play : Dims → State → MoveStack → State
play dims st [] = st
play dims st (move ∷ stack) = play dims (apply_move dims st none move).0 stack
