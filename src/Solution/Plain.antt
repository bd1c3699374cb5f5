-- ===== src/Solution/Plain.antt =====
-- The functions of the parent with room for any number of moves, and that they agree where the number
-- stays in its range.
use investigate_lack_of_pgo.Prelude.{ℕ, ◌+◌, ◌≤◌, ◌≡◌, refl, arith, some, List, [], ◌∷◌, length}
use investigate_lack_of_pgo.State.{State, Dims}
use investigate_lack_of_pgo.State.Canonize.{Locs}
use investigate_lack_of_pgo.Move.{Move, MoveType}
use investigate_lack_of_pgo.Move.Stack.{MoveStack, max_num_moves, pour}
use investigate_lack_of_pgo.Move.Played.{move_stack_push-fits, swallow_stack-pour, length-pour}
use investigate_lack_of_pgo.Solution.{
  Normalizing, apply_with_locs, normalize_move, normalize_step, normalize_loop, normalizing_from,
  move_stack_normalize, canonizing, trace_loop, trace_solution, trace_flare_solution,
}

unfoldable pub plain_step : Dims → Normalizing → Move → Normalizing
unfolding apply_with_locs normalize_move
plain_step dims n in_move =
    let (st, locs) = apply_with_locs dims n.dynamic_state n.locs in_move in
    let out_move = normalize_move locs n.out_move in_move in
    elim in_move.type [
      | MoveType.canonize_move ↦ record n { dynamic_state = st; locs = locs }
      | _ ↦ record {
        dynamic_state = st;
        locs = locs;
        out_move = out_move;
        temp_moves = out_move ∷ n.temp_moves;
      }
    ]

unfoldable pub plain_loop : Dims → Normalizing → MoveStack → Normalizing
plain_loop dims n [] = n
plain_loop dims n (in_move ∷ moves) = plain_loop dims (plain_step dims n in_move) moves

unfoldable pub plain_normalize : Dims → MoveStack → State → Locs → MoveStack
plain_normalize dims moves init_state locs =
    pour [] (plain_loop dims (normalizing_from init_state locs) moves).temp_moves

unfoldable pub plain_trace : MoveStack → List MoveStack → MoveStack
plain_trace solution_moves [] = solution_moves
plain_trace solution_moves (moves_to_parent ∷ parents) =
    plain_trace (pour (canonizing ∷ solution_moves) moves_to_parent) parents

-- how many moves the chain makes, a canonizing one for each state included
abbrev pub chain_moves : List MoveStack → ℕ
chain_moves [] = 0
chain_moves (moves ∷ chain) = length moves + 1 + chain_moves chain

length-plain_trace :
    (solution_moves : MoveStack) (chain : List MoveStack)
    → length (plain_trace solution_moves chain) ≡ length solution_moves + chain_moves chain
unfolding plain_trace
length-plain_trace solution_moves [] = omega arith
length-plain_trace solution_moves (moves ∷ chain) = omega (
  arith,
  length-plain_trace (pour (canonizing ∷ solution_moves) moves) chain,
  length-pour (canonizing ∷ solution_moves) moves,
)

pub trace_loop-plain :
    (solution_moves : MoveStack) (chain : List MoveStack)
    → length solution_moves + chain_moves chain ≤ max_num_moves
    → trace_loop solution_moves chain ≡ some (plain_trace solution_moves chain)
unfolding trace_loop plain_trace
trace_loop-plain solution_moves [] h = refl
trace_loop-plain solution_moves (moves ∷ chain) h =
    let poured = length-pour (canonizing ∷ solution_moves) moves in
    rw
      (
        move_stack_push-fits solution_moves canonizing (omega arith),
        swallow_stack-pour (canonizing ∷ solution_moves) moves (omega arith),
      )
      (trace_loop-plain (pour (canonizing ∷ solution_moves) moves) chain (omega arith))

module _ (d : Dims) where
  step_of_type-plain :
      (n : Normalizing) (t : MoveType) (src dest num : ℕ)
      → length n.temp_moves + 1 ≤ max_num_moves
      → (normalize_step d n (record { type = t; src = src; dest = dest; num_cards_in_seq = num })
          ≡ some (
              plain_step d n (record { type = t; src = src; dest = dest; num_cards_in_seq = num })))
        × (length
              (plain_step d n
                (record { type = t; src = src; dest = dest; num_cards_in_seq = num })).temp_moves
            ≤ length n.temp_moves + 1)
  unfolding normalize_step plain_step
  step_of_type-plain n MoveType.canonize_move src dest num h = (refl, omega arith)
  step_of_type-plain n _ src dest num h =
      (rw (move_stack_push-fits n.temp_moves _ h) refl, omega arith)

  normalize_step-plain :
      (n : Normalizing) (m : Move)
      → length n.temp_moves + 1 ≤ max_num_moves
      → (normalize_step d n m ≡ some (plain_step d n m))
        × (length (plain_step d n m).temp_moves ≤ length n.temp_moves + 1)
  normalize_step-plain n m h = step_of_type-plain n m.type m.src m.dest m.num_cards_in_seq h

  normalize_loop-plain :
      (n : Normalizing) (moves : MoveStack)
      → length n.temp_moves + length moves ≤ max_num_moves
      → (normalize_loop d n moves ≡ some (plain_loop d n moves))
        × (length (plain_loop d n moves).temp_moves ≤ length n.temp_moves + length moves)
  unfolding normalize_loop plain_loop
  normalize_loop-plain n [] h = (refl, omega arith)
  normalize_loop-plain n (m ∷ moves) h =
      let (stepped, longer) = normalize_step-plain n m (omega arith) in
      let (looped, long) = normalize_loop-plain (plain_step d n m) moves (omega arith) in
      (rw stepped looped, omega arith)

  -- Where the moves to all states, with a canonizing one for each, are in the range, no push fails.
  pub trace_flare_solution-plain :
      (st : State) (locs : Locs) (chain : List MoveStack)
      → chain_moves chain ≤ max_num_moves
      → trace_flare_solution d st locs chain
        ≡ some (plain_normalize d (plain_trace [] chain) st locs)
  unfolding trace_flare_solution trace_solution move_stack_normalize plain_normalize
  trace_flare_solution-plain st locs chain h =
      let solution_moves = plain_trace [] chain in
      let first = normalizing_from st locs in
      let count = length-plain_trace [] chain in
      let (looped, long) = normalize_loop-plain first solution_moves (omega arith) in
      rw (trace_loop-plain [] chain (omega arith), looped)
        (swallow_stack-pour [] (plain_loop d first solution_moves).temp_moves (omega arith))
