-- ===== src/Freecell/Tests.antt =====
-- Runs of the tests at a concrete board.
use investigate_lack_of_pgo.Prelude.{
  ℕ, ◌≡◌, refl, sym, subst, ltb, inl, inr, [], ◌∷◌, arith, ◌==◌, if◌then◌else◌, List, Option, some,
  ◌>>=◌, ◌+◌, ◌-◌, ◌≤◌, ◌<◌, zero, suc, Bool-cases,
}
use investigate_lack_of_pgo.Card.{card_rank, card_suit, card_is_empty}
use investigate_lack_of_pgo.State.{State, Dims}
use investigate_lack_of_pgo.State.Canonize.{canonize, canonize_with_locs, init_locs}
use investigate_lack_of_pgo.Move.Stack.{replay, max_num_moves}
use investigate_lack_of_pgo.Move.Played.{StackedLegal}
use investigate_lack_of_pgo.Solution.{trace_flare_solution}
use investigate_lack_of_pgo.Solution.Chain.{Solved}
use investigate_lack_of_pgo.Solution.Plain.{chain_moves}
use investigate_lack_of_pgo.Freecell.Rules.{FollowsRules}
use investigate_lack_of_pgo.Freecell.{
  Deriving, Derived, check_state_begin, copy_stack, column_to_foundation,
}
use investigate_lack_of_pgo.Freecell.Loops.{Yields, Succeeds, count_from}
use investigate_lack_of_pgo.Freecell.Recorded.{
  StackedAllowed, RecordedItem, begin-Recorded, copy_stack-Recorded,
}
use investigate_lack_of_pgo.Freecell.Positions.{positions_by_rank, slot_of}
use investigate_lack_of_pgo.Freecell.Positions.Placed.{
  OneDeck, card_at, IsPlace, Placed, positions_by_rank-Placed,
}
use investigate_lack_of_pgo.Freecell.Empty.ToFreecells.{CleanFrom}
use investigate_lack_of_pgo.Freecell.Empty.{empty_two_cols, num_vacant_freecells, num_vacant_stacks}
use investigate_lack_of_pgo.Freecell.Empty.Progress.{Ready}
use investigate_lack_of_pgo.Freecell.Empty.Emptied.{Emptied, empty_two_cols-Emptied, two_cols}
use investigate_lack_of_pgo.Freecell.Empty.TwoCols.{two_cols-Ready}
use investigate_lack_of_pgo.Freecell.Sort.{
  sort_derived_states, AscendsFrom, total, sort_derived_states-sorted,
}
use investigate_lack_of_pgo.Freecell.FreeStacks.{lower_start}
use investigate_lack_of_pgo.Freecell.FreeStacks.Recorded.{lower_start_lem}
use investigate_lack_of_pgo.Freecell.DifferentStacks.{for_sequences}
use investigate_lack_of_pgo.Freecell.DifferentStacks.Visits.{
  Sequences, for_each, for_sequences-Sequences,
}
use investigate_lack_of_pgo.State.Count.{
  is_card, in_stacks, in_freecells, in_foundations, occurrences,
}
use investigate_lack_of_pgo.Freecell.Prune.{cards_left, raymond_prune}
use investigate_lack_of_pgo.Freecell.Prune.Pruned.{Pruned, raymond_prune-Pruned}
use investigate_lack_of_pgo.Freecell.Tidy.{IsTidy}
use investigate_lack_of_pgo.Freecell.Suited.{IsSuited, replay-IsSuited}
use investigate_lack_of_pgo.Freecell.Explore.{
  top_to_founds, same_stack, run_test, IsSuitable, run_test-Yields, Explored, first, derive,
  trace_flare_solution-Explored,
}

abbrev dims : Dims
dims = record { freecells_num = 2; stacks_num = 2; decks_num = 1 }

-- the ten of spades alone, and the ace of clubs on the jack of hearts; in the canonized order
abbrev board : State
board = record {
  stacks = λ i. if i == 0 then 43 ∷ [] else 44 ∷ 5 ∷ [];
  freecells = λ i. 0;
  foundations = λ i. 0;
}

canonized :
    ((canonize dims board).stacks 0 ≡ 43 ∷ []) × ((canonize dims board).stacks 1 ≡ 44 ∷ 5 ∷ [])
unfolding canonize
canonized = (refl, refl)

cards :
    (b j : ℕ)
    → IsPlace dims board b j
    → card_at board b j ≡ (if b == 0 then 43 else if j == 0 then 44 else 5)
cards b zero h = ground arith
cards b (suc zero) (h, k) = elim (Bool-cases (b == 0)) [
  | inl e ↦ absurd (omega (arith, rw e at k))
  | inr e ↦ rw e refl
]
cards b (suc (suc j)) (h, k) = elim (Bool-cases (b == 0)) [
  | inl e ↦ absurd (omega (arith, rw e at k))
  | inr e ↦ absurd (omega (arith, rw e at k))
]

heights : (b j : ℕ) → IsPlace dims board b j → (b < 2) × (j ≤ b)
heights b j (h, k) = elim (Bool-cases (b == 0)) [
  | inl e ↦ (h, ground (arith, e, rw e at k))
  | inr e ↦ (h, ground (arith, e, rw e at k))
]

board-OneDeck : OneDeck dims board
unfolding card_is_empty card_rank
board-OneDeck = record {
  valid = λ b j h. rw (cards b j h) (ground arith);
  once = λ b j c k h q e. ground (arith, cards b j h, cards c k q, heights b j h, heights c k q, e);
}

board-IsTidy : IsTidy dims board
unfolding in_stacks in_freecells is_card card_rank card_suit
board-IsTidy = record { columns = λ suit. ground arith; cells = λ suit h. ground (arith, h) }

board-IsSuited : IsSuited dims board
unfolding occurrences in_stacks in_freecells in_foundations is_card card_rank card_suit
board-IsSuited = record { neat = board-IsTidy; once = λ suit rank h. ground (arith, h) }

board-IsSuitable : IsSuitable dims board
board-IsSuitable = record { clean = λ i h k e. refl; deck = board-OneDeck }

run_test-Yields_example : Yields (RecordedItem dims board) (run_test top_to_founds dims board)
run_test-Yields_example = run_test-Yields top_to_founds dims board board-IsSuitable

-- the ace goes to the foundation of the clubs
ace : Derived
ace = (column_to_foundation (copy_stack (check_state_begin board) 1) 1 1, 0)

ace-derived : run_test top_to_founds dims board ≡ some (ace ∷ [])
unfolding run_test ace card_suit card_rank
ace-derived = refl

board-canonized : canonize dims board ≡ board
unfolding canonize
board-canonized = refl

ace-Explored : Explored dims board (ace.0.moves ∷ []) (canonize dims ace.0.st)
ace-Explored = derive top_to_founds (ace ∷ []) ace first ace-derived (inl refl)

ace-room : chain_moves (ace.0.moves ∷ []) ≤ max_num_moves
unfolding ace
ace-room = omega arith

trace_flare_solution-Explored_example :
    Solved dims (FollowsRules dims) board (canonize dims ace.0.st) (
      trace_flare_solution dims
        (canonize_with_locs dims board init_locs).0
        (canonize_with_locs dims board init_locs).1
        (ace.0.moves ∷ []))
trace_flare_solution-Explored_example =
    trace_flare_solution-Explored dims board (canonize dims ace.0.st) (ace.0.moves ∷ [])
      board-IsSuited ace-room
      (subst (λ root. Explored dims root (ace.0.moves ∷ []) (canonize dims ace.0.st))
        (sym board-canonized) ace-Explored)

positions_by_rank-Placed_example : Placed dims board (positions_by_rank dims board) 2 0
positions_by_rank-Placed_example = positions_by_rank-Placed dims board board-OneDeck

-- the jack of hearts stands under the ace
jack_slot : positions_by_rank dims board 40 ≡ some (1, 0)
unfolding positions_by_rank slot_of card_rank card_suit
jack_slot = refl

-- a column with two cards over the one that stays, a vacant freecell and a vacant column
abbrev deep_board : State
deep_board = record {
  stacks = λ i. if i == 0 then 53 ∷ 36 ∷ 35 ∷ [] else [];
  freecells = λ i. if i == 0 then 0 else 12;
  foundations = λ i. 0;
}

abbrev deep_start : Deriving
deep_start = copy_stack (check_state_begin deep_board) 0

deep-Ready : Ready dims deep_start (two_cols 0 0 2 0)
deep-Ready =
    two_cols-Ready dims deep_start 0 0 2 0 (λ h. absurd (omega arith))
      (λ h. (omega arith, refl, omega arith)) (λ h. absurd (omega arith))

deep-CleanFrom : CleanFrom dims deep_board 0
unfolding card_is_empty card_rank
deep-CleanFrom i h k e = ground (arith, e)

deep-room : 2 ≤ num_vacant_freecells dims deep_board + num_vacant_stacks dims deep_board
unfolding count_from card_is_empty card_rank
deep-room = omega arith

empty_two_cols-Emptied_example :
    Succeeds
      (Emptied dims deep_board deep_start (two_cols 0 0 2 0))
      (empty_two_cols dims deep_start 0 0 2 0)
empty_two_cols-Emptied_example =
    empty_two_cols-Emptied dims deep_board deep_start 0 0 2 0
      (copy_stack-Recorded dims deep_board (check_state_begin deep_board)
        (begin-Recorded dims deep_board) 0)
      deep-Ready deep-CleanFrom deep-room

sort_derived_states-sorted_example :
    AscendsFrom 0 (sort_derived_states ((deep_start, 7) ∷ (deep_start, 3) ∷ []))
    × ((w : Derived → ℕ)
        → total w (sort_derived_states ((deep_start, 7) ∷ (deep_start, 3) ∷ []))
          ≡ total w ((deep_start, 7) ∷ (deep_start, 3) ∷ []))
sort_derived_states-sorted_example =
    sort_derived_states-sorted ((deep_start, 7) ∷ (deep_start, 3) ∷ [])

lower_start_lem_example : lower_start 2 5 2 ≡ (if ltb 2 (5 - 2) then 0 else 2)
lower_start_lem_example = lower_start_lem 2 5 2 (omega arith)

abbrev one_each : ℕ → ℕ → Option (List Derived)
one_each c seq_end = some ((deep_start, c) ∷ [])

for_sequences-Sequences_example :
    (runs : List (ℕ × ℕ)) × Sequences (53 ∷ 36 ∷ 35 ∷ []) 0 runs
    × (for_sequences 3 (53 ∷ 36 ∷ 35 ∷ []) 0 one_each ≡ for_each one_each runs)
for_sequences-Sequences_example =
    for_sequences-Sequences 3 (53 ∷ 36 ∷ 35 ∷ []) 0 one_each (omega arith)

ace-StackedLegal : StackedLegal dims board ace.0.moves
unfolding ace replay card_suit card_rank
ace-StackedLegal = (tt, (omega arith, omega arith, omega arith, (refl, refl)))

ace-StackedAllowed : StackedAllowed dims board ace.0.moves
unfolding ace
ace-StackedAllowed = (tt, tt)

replay-IsSuited_example : IsSuited dims (replay dims board ace.0.moves)
replay-IsSuited_example =
    replay-IsSuited dims board ace.0.moves board-IsSuited ace-StackedLegal ace-StackedAllowed

raymond_prune-Pruned_example :
    Succeeds (Pruned dims board (cards_left dims board)) (raymond_prune dims board)
raymond_prune-Pruned_example = raymond_prune-Pruned dims board

-- the eight of spades over the three and the nine of hearts
abbrev same_column : State
same_column = record {
  stacks = λ i. if i == 0 then 36 ∷ 12 ∷ 35 ∷ [] else 43 ∷ [];
  freecells = λ i. 0;
  foundations = λ i. 0;
}

-- the columns and the freecells of the states that are derived
abbrev contents : List Derived → List (List ℕ × List ℕ × ℕ × ℕ)
contents [] = []
contents ((x, _) ∷ items) =
    (x.st.stacks 0, x.st.stacks 1, x.st.freecells 0, x.st.freecells 1) ∷ contents items

-- the eight is put on the nine, and the three stays in a freecell
same_column-derived :
    (run_test same_stack dims same_column >>= λ items. some (contents items))
    ≡ some ((36 ∷ 35 ∷ [], 43 ∷ [], 0, 12) ∷ [])
unfolding run_test count_from card_is_empty
same_column-derived = refl
