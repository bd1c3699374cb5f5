-- ===== src/Solution.antt =====
-- instance.c's fc_solve_trace_solution and move.h's fc_solve_move_stack_normalize: the list of moves
-- that solves the board as the user gave it, from the chain of states that the scan found. `none` is
-- for a stack whose number of moves wraps around.
pub mod Follow
pub mod Plain
pub mod Rules
pub mod Steps
pub mod Overflow
pub mod Chain
mod Tests
use investigate_lack_of_pgo.Prelude.{ℕ, Option, some, none, ◌>>=◌, List, [], ◌∷◌}
use investigate_lack_of_pgo.State.{State, Dims}
use investigate_lack_of_pgo.State.Canonize.{Locs}
use investigate_lack_of_pgo.Move.{Move, MoveType, apply_move}
use investigate_lack_of_pgo.Move.Stack.{MoveStack, move_stack_push, swallow_stack}

-- fc_solve_empty_move
abbrev pub empty_move : Move
empty_move = record { type = MoveType.stack_to_stack; src = 0; dest = 0; num_cards_in_seq = 0 }

-- fc_solve_apply_move, where the caller passes locations
unfoldable pub apply_with_locs : Dims → State → Locs → Move → State × Locs
unfolding apply_move
apply_with_locs dims st locs move =
    let (st', locs') = apply_move dims st (some locs) move in
    (st', elim locs' [ some l ↦ l | none ↦ locs ])

-- `out_move` after the assignments for `in_move`; a field that is not assigned stays
unfoldable pub normalize_move : Locs → Move → Move → Move
normalize_move locs out_move in_move = record {
  type = in_move.type;
  src = elim in_move.type [
    | MoveType.stack_to_stack ↦ locs.stack_locs in_move.src
    | MoveType.stack_to_freecell ↦ locs.stack_locs in_move.src
    | MoveType.stack_to_foundation ↦ locs.stack_locs in_move.src
    | MoveType.seq_to_foundation ↦ locs.stack_locs in_move.src
    | MoveType.freecell_to_stack ↦ locs.fc_locs in_move.src
    | MoveType.freecell_to_freecell ↦ locs.fc_locs in_move.src
    | MoveType.freecell_to_foundation ↦ locs.fc_locs in_move.src
    | _ ↦ out_move.src
  ];
  dest = elim in_move.type [
    | MoveType.stack_to_stack ↦ locs.stack_locs in_move.dest
    | MoveType.freecell_to_stack ↦ locs.stack_locs in_move.dest
    | MoveType.stack_to_freecell ↦ locs.fc_locs in_move.dest
    | MoveType.freecell_to_freecell ↦ locs.fc_locs in_move.dest
    | MoveType.stack_to_foundation ↦ in_move.dest
    | MoveType.freecell_to_foundation ↦ in_move.dest
    | MoveType.seq_to_foundation ↦ in_move.dest
    | _ ↦ out_move.dest
  ];
  num_cards_in_seq = elim in_move.type [
    | MoveType.stack_to_stack ↦ in_move.num_cards_in_seq
    | _ ↦ out_move.num_cards_in_seq
  ];
}

-- the variables of the loop of fc_solve_move_stack_normalize
pub record Normalizing : Type 0 where
  pub dynamic_state : State
  pub locs : Locs
  pub out_move : Move
  pub temp_moves : MoveStack

-- the body of the loop, for the move that was popped
unfoldable pub normalize_step : Dims → Normalizing → Move → Option Normalizing
unfolding apply_with_locs normalize_move move_stack_push
normalize_step dims n in_move =
    let (st, locs) = apply_with_locs dims n.dynamic_state n.locs in_move in
    let out_move = normalize_move locs n.out_move in_move in
    elim in_move.type [
      | MoveType.canonize_move ↦ some (record n { dynamic_state = st; locs = locs })
      | _ ↦ do
        temp_moves ← move_stack_push n.temp_moves out_move
        some (record {
          dynamic_state = st;
          locs = locs;
          out_move = out_move;
          temp_moves = temp_moves;
        })
    ]

unfoldable pub normalize_loop : Dims → Normalizing → MoveStack → Option Normalizing
unfolding normalize_step
normalize_loop dims n [] = some n
normalize_loop dims n (in_move ∷ moves) = do
  next ← normalize_step dims n in_move
  normalize_loop dims next moves

-- the variables before the loop
abbrev pub normalizing_from : State → Locs → Normalizing
normalizing_from init_state locs = record {
  dynamic_state = init_state;
  locs = locs;
  out_move = empty_move;
  temp_moves = [];
}

unfoldable pub move_stack_normalize : Dims → MoveStack → State → Locs → Option MoveStack
unfolding normalize_loop swallow_stack
move_stack_normalize dims moves init_state locs = do
  n ← normalize_loop dims (normalizing_from init_state locs) moves
  swallow_stack [] n.temp_moves

abbrev pub canonizing : Move
canonizing = record empty_move { type = MoveType.canonize_move }

-- The loop of fc_solve_trace_solution up the chain of parents, with the moves to each state from its
-- parent, the final state's first. The solution is not patsolve's.
unfoldable pub trace_loop : MoveStack → List MoveStack → Option MoveStack
unfolding swallow_stack move_stack_push
trace_loop solution_moves [] = some solution_moves
trace_loop solution_moves (moves_to_parent ∷ parents) = do
  before ← move_stack_push solution_moves canonizing
  with_moves ← swallow_stack before moves_to_parent
  trace_loop with_moves parents

unfoldable pub trace_solution : List MoveStack → Option MoveStack
unfolding trace_loop
trace_solution chain = trace_loop [] chain

-- What trace_flare_solution makes of it, for the canonized state and the locations of the user's
-- board.
unfoldable pub trace_flare_solution : Dims → State → Locs → List MoveStack → Option MoveStack
unfolding trace_solution move_stack_normalize
trace_flare_solution dims st locs chain = do
  solution_moves ← trace_solution chain
  move_stack_normalize dims solution_moves st locs
