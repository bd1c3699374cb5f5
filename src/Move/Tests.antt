-- ===== src/Move/Tests.antt =====
-- Runs of fc_solve_apply_move at concrete inputs.
use investigate_lack_of_pgo.Prelude.{◌≡◌, refl, none, [], ◌∷◌, arith, ◌==◌, if◌then◌else◌}
use investigate_lack_of_pgo.State.{State, Dims}
use investigate_lack_of_pgo.State.Count.{occurrences}
use investigate_lack_of_pgo.Move.{Move, MoveType, apply_move}
use investigate_lack_of_pgo.Move.Single.{IsLegal}
use investigate_lack_of_pgo.Move.Conservation.{
  apply_move-occurrences, start, move, Plays-occurrences,
}

abbrev dims : Dims
dims = record { freecells_num = 2; stacks_num = 2; decks_num = 1 }

-- the nine of hearts and the eight of spades on the king of clubs, and the ten of spades
abbrev position : State
position = record {
  stacks = λ i. if i == 0 then 53 ∷ 36 ∷ 35 ∷ [] else 43 ∷ [];
  freecells = λ i. 0;
  foundations = λ i. 0;
}

abbrev two_cards : Move
two_cards = record { type = MoveType.stack_to_stack; src = 0; dest = 1; num_cards_in_seq = 2 }

moved :
    ((apply_move dims position none two_cards).0.stacks 0 ≡ 53 ∷ [])
    × ((apply_move dims position none two_cards).0.stacks 1 ≡ 43 ∷ 36 ∷ 35 ∷ [])
unfolding apply_move
moved = (refl, refl)

two_cards-IsLegal : IsLegal dims position two_cards
two_cards-IsLegal = omega arith

apply_move-occurrences_example :
    occurrences 3 8 dims (apply_move dims position none two_cards).0 ≡ occurrences 3 8 dims position
apply_move-occurrences_example =
    apply_move-occurrences 3 8 (omega arith) dims position none two_cards two_cards-IsLegal

Plays-occurrences_example :
    occurrences 3 8 dims (apply_move dims position none two_cards).0 ≡ occurrences 3 8 dims position
Plays-occurrences_example =
    Plays-occurrences 3 8 (omega arith) dims (move none two_cards start two_cards-IsLegal)
