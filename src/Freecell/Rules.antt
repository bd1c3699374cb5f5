-- ===== src/Freecell/Rules.antt =====
-- The rules of FreeCell, carried from the canonized states to the user's board.
use investigate_lack_of_pgo.Prelude.{ℕ, ◌+◌, ◌-◌, ◌<◌, ◌≡◌, subst₂, true, false, length, [], ◌∷◌}
use investigate_lack_of_pgo.Card.{card_is_empty}
use investigate_lack_of_pgo.State.{State, Dims, col_get_card}
use investigate_lack_of_pgo.State.Canonize.{Locs}
use investigate_lack_of_pgo.Move.{Move, MoveType}
use investigate_lack_of_pgo.Move.Single.{IsLegal, IsLegalOf}
use investigate_lack_of_pgo.Move.Stack.{MoveStack}
use investigate_lack_of_pgo.Move.Played.{StackedLegal, StackedAll}
use investigate_lack_of_pgo.Solution.{normalize_move}
use investigate_lack_of_pgo.Solution.Follow.{Follows}
use investigate_lack_of_pgo.Solution.Rules.{Rule, IsMade, move_of, normalized-IsLegalOf}
use investigate_lack_of_pgo.Freecell.{is_parent_card}
use investigate_lack_of_pgo.Freecell.Recorded.{IsAllowed, IsAllowedOf, MayPut, StackedAllowed}

-- A legal move that follows the rules: a sequence is one of parents, a card is put on its parent or on
-- an empty column, and a card that leaves a freecell for a column is one. How many cards a sequence
-- may have is not asked.
abbrev pub FollowsRules : Dims → State → Move → Type 0
FollowsRules d st m = IsLegal d st m × IsAllowed st m

normalized-IsAllowedOf :
    (d : Dims) (u s : State) (l : Locs) (out : Move) (t : MoveType) (src dest num : ℕ)
    → Follows d u s l
    → IsLegalOf t d s src dest num
    → IsAllowedOf t s src dest num
    → IsMade t
    → IsAllowed u (normalize_move l out (move_of t src dest num))
unfolding normalize_move
normalized-IsAllowedOf d u s l out MoveType.stack_to_stack src dest num f (a, b, _, _) (run, put)
      h =
    subst₂
      (λ c e.
        ((j : ℕ)
          → j + 1 < num
          → is_parent_card (col_get_card c (length c - num + (j + 1)))
              (col_get_card c (length c - num + j))
            ≡ true)
        × MayPut (col_get_card c (length c - num)) e)
      (f.columns src a) (f.columns dest b) (run, put)
normalized-IsAllowedOf d u s l out MoveType.freecell_to_stack src dest num f (a, b) (there, put) h =
    subst₂ (λ c e. (card_is_empty c ≡ false) × MayPut c e) (f.cells src a) (f.columns dest b)
      (there, put)
normalized-IsAllowedOf d u s l out MoveType.freecell_to_freecell src dest num f g k h = tt
normalized-IsAllowedOf d u s l out MoveType.stack_to_freecell src dest num f g k h = tt
normalized-IsAllowedOf d u s l out MoveType.stack_to_foundation src dest num f g k h = tt
normalized-IsAllowedOf d u s l out MoveType.freecell_to_foundation src dest num f g k h = tt
normalized-IsAllowedOf d u s l out MoveType.seq_to_foundation src dest num f g k h = tt
normalized-IsAllowedOf d u s l out _ src dest num f g k h = tt

pub FollowsRules-Rule : (d : Dims) → Rule d (FollowsRules d)
FollowsRules-Rule d = record {
  legal = λ st m h. h.0;
  canonizes = λ st. (tt, tt);
  carried = λ u s l out t src dest num f h k. (
    normalized-IsLegalOf d l u s out t src dest num f h.0 k,
    normalized-IsAllowedOf d u s l out t src dest num f h.0 h.1 k,
  );
}

pub stacked_both :
    (d : Dims) (st : State) (moves : MoveStack)
    → StackedLegal d st moves
    → StackedAllowed d st moves
    → StackedAll (FollowsRules d) d st moves
stacked_both d st [] h k = tt
stacked_both d st (m ∷ moves) (h, legal) (k, allowed) =
    (stacked_both d st moves h k, (legal, allowed))
