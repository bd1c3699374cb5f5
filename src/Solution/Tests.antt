-- ===== src/Solution/Tests.antt =====
-- A game traced at a concrete board.
use investigate_lack_of_pgo.Prelude.{◌≡◌, refl, [], ◌∷◌, arith, ◌==◌, if◌then◌else◌}
use investigate_lack_of_pgo.State.{State, Dims}
use investigate_lack_of_pgo.State.Canonize.{canonize, canonize_with_locs, init_locs}
use investigate_lack_of_pgo.Move.{Move, MoveType}
use investigate_lack_of_pgo.Move.Stack.{replay}
use investigate_lack_of_pgo.Move.Played.{StackedLegal}
use investigate_lack_of_pgo.Solution.{trace_flare_solution}
use investigate_lack_of_pgo.Solution.Chain.{origin, child, Solved, trace_flare_solution-Solved}
use investigate_lack_of_pgo.Solution.Rules.{IsLegal-Rule}
use investigate_lack_of_pgo.Move.Single.{IsLegal}
use investigate_lack_of_pgo.Prelude.{some}
use investigate_lack_of_pgo.Prelude.{ℕ, zero, suc, ◌∙◌, List, none, leb, false}
use investigate_lack_of_pgo.Move.Stack.{MoveStack, max_num_moves}
use investigate_lack_of_pgo.Solution.{trace_solution}
use investigate_lack_of_pgo.Solution.Plain.{chain_moves, plain_trace}
use investigate_lack_of_pgo.Solution.Overflow.{trace_solution-bounded}

abbrev dims : Dims
dims = record { freecells_num = 2; stacks_num = 2; decks_num = 1 }

-- the nine of hearts and the eight of spades on the king of clubs, before the ten of spades
abbrev user_board : State
user_board = record {
  stacks = λ i. if i == 0 then 53 ∷ 36 ∷ 35 ∷ [] else 43 ∷ [];
  freecells = λ i. 0;
  foundations = λ i. 0;
}

-- of the canonized board, whose first column is the ten's
abbrev two_cards : Move
two_cards = record { type = MoveType.stack_to_stack; src = 1; dest = 0; num_cards_in_seq = 2 }

-- the same move, for the board of the user
abbrev user_two_cards : Move
user_two_cards = record { type = MoveType.stack_to_stack; src = 0; dest = 1; num_cards_in_seq = 2 }

traced :
    trace_flare_solution dims
      (canonize_with_locs dims user_board init_locs).0
      (canonize_with_locs dims user_board init_locs).1
      ((two_cards ∷ []) ∷ [])
    ≡ some (user_two_cards ∷ [])
unfolding trace_flare_solution canonize_with_locs init_locs
traced = refl

two_cards-StackedLegal : StackedLegal dims (canonize dims user_board) (two_cards ∷ [])
unfolding canonize replay
two_cards-StackedLegal = (tt, omega arith)

trace_flare_solution-Solved_example :
    Solved dims
      (IsLegal dims)
      user_board
      (canonize dims (replay dims (canonize dims user_board) (two_cards ∷ [])))
      (trace_flare_solution dims
        (canonize_with_locs dims user_board init_locs).0
        (canonize_with_locs dims user_board init_locs).1
        ((two_cards ∷ []) ∷ []))
trace_flare_solution-Solved_example =
    trace_flare_solution-Solved dims (IsLegal dims) (IsLegal-Rule dims) user_board
      (canonize dims (replay dims (canonize dims user_board) (two_cards ∷ [])))
      ((two_cards ∷ []) ∷ []) (omega arith) (child (two_cards ∷ []) origin two_cards-StackedLegal)

-- so many states, each with the state before it for a parent and without moves
unfoldable many : ℕ → List MoveStack
many zero = []
many (suc n) = [] ∷ many n

chain_moves-many : (n : ℕ) → chain_moves (many n) ≡ n
unfolding many
chain_moves-many zero = refl
chain_moves-many (suc n) = omega (arith, chain_moves-many n)

too_many : trace_solution (many 65536) ≡ none
too_many =
    let over : leb (chain_moves (many 65536)) max_num_moves ≡ false =
      ground (arith, chain_moves-many 65536) in
    trace_solution-bounded (many 65536) ∙ rw over refl

trace_solution-bounded_example : trace_solution (many 65536) ≡ (
    if leb (chain_moves (many 65536)) max_num_moves
    then some (plain_trace [] (many 65536))
    else none)
trace_solution-bounded_example = trace_solution-bounded (many 65536)
