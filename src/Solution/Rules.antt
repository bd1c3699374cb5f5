-- ===== src/Solution/Rules.antt =====
-- What a game asks of a move, and that the normalized move meets it where the move does.
use investigate_lack_of_pgo.Prelude.{
  ℕ, ◌+◌, ◌-◌, ◌≤◌, ◌<◌, ◌≡◌, ◌∙◌, sym, ap, subst, subst₂, ◌%◌, length,
}
use investigate_lack_of_pgo.State.{State, Dims, col_get_card, col_top}
use investigate_lack_of_pgo.Card.{Card, card_suit, card_rank}
use investigate_lack_of_pgo.State.Canonize.{Locs}
use investigate_lack_of_pgo.Move.{Move, MoveType}
use investigate_lack_of_pgo.Move.Single.{IsLegal, IsLegalOf, IsNext}
use investigate_lack_of_pgo.InsertionSort.Places.{IsPlaces-lt, IsPlaces-differ}
use investigate_lack_of_pgo.Solution.{canonizing, normalize_move}
use investigate_lack_of_pgo.Solution.Follow.{Follows}

abbrev pub move_of : MoveType → ℕ → ℕ → ℕ → Move
move_of t src dest num = record { type = t; src = src; dest = dest; num_cards_in_seq = num }

-- the moves that the normalized stack keeps
abbrev pub IsMade : MoveType → Type 0
IsMade MoveType.canonize_move = ⊥
IsMade _ = Unit {0}

module _ (d : Dims) (l : Locs) where
  IsNext-Follows :
      (u s : State) (f : ℕ) (a b : Card) → Follows d u s l → a ≡ b → IsNext s f b → IsNext u f a
  IsNext-Follows u s f a b h e (suit, next) =
      (ap card_suit e ∙ suit, ap card_rank e ∙ next ∙ ap (λ g. g f + 1) h.foundations)

  pub normalized-IsLegalOf :
      (u s : State) (out : Move) (t : MoveType) (src dest num : ℕ)
      → Follows d u s l
      → IsLegalOf t d s src dest num
      → IsMade t
      → IsLegal d u (normalize_move l out (move_of t src dest num))
  unfolding normalize_move
  normalized-IsLegalOf u s out MoveType.stack_to_stack src dest num f (a, b, ne, k) h = (
    IsPlaces-lt d.stacks_num l.stack_locs f.stack_places src a,
    IsPlaces-lt d.stacks_num l.stack_locs f.stack_places dest b,
    IsPlaces-differ d.stacks_num l.stack_locs f.stack_places dest src b a ne,
    subst (λ c. num ≤ length c) (f.columns src a) k,
  )
  normalized-IsLegalOf u s out MoveType.freecell_to_stack src dest num f (a, b) h = (
    IsPlaces-lt d.freecells_num l.fc_locs f.fc_places src a,
    IsPlaces-lt d.stacks_num l.stack_locs f.stack_places dest b,
  )
  normalized-IsLegalOf u s out MoveType.freecell_to_freecell src dest num f (a, b, ne, free) h = (
    IsPlaces-lt d.freecells_num l.fc_locs f.fc_places src a,
    IsPlaces-lt d.freecells_num l.fc_locs f.fc_places dest b,
    IsPlaces-differ d.freecells_num l.fc_locs f.fc_places dest src b a ne,
    sym (f.cells dest b) ∙ free,
  )
  normalized-IsLegalOf u s out MoveType.stack_to_freecell src dest num f (a, b, k, free) h = (
    IsPlaces-lt d.stacks_num l.stack_locs f.stack_places src a,
    IsPlaces-lt d.freecells_num l.fc_locs f.fc_places dest b,
    subst (λ c. 1 ≤ length c) (f.columns src a) k,
    sym (f.cells dest b) ∙ free,
  )
  normalized-IsLegalOf u s out MoveType.stack_to_foundation src dest num f (a, b, k, next) h = (
    IsPlaces-lt d.stacks_num l.stack_locs f.stack_places src a,
    b,
    subst (λ c. 1 ≤ length c) (f.columns src a) k,
    IsNext-Follows u s dest _ _ f (ap col_top (sym (f.columns src a))) next,
  )
  normalized-IsLegalOf u s out MoveType.freecell_to_foundation src dest num f (a, b, next) h = (
    IsPlaces-lt d.freecells_num l.fc_locs f.fc_places src a,
    b,
    IsNext-Follows u s dest _ _ f (sym (f.cells src a)) next,
  )
  normalized-IsLegalOf u s out MoveType.seq_to_foundation src dest num f (a, b, k, run) h = (
    IsPlaces-lt d.stacks_num l.stack_locs f.stack_places src a,
    b,
    subst (λ c. 13 ≤ length c) (f.columns src a) k,
    subst₂
        (λ c g.
          (j : ℕ)
          → j < 13
          → (card_suit (col_get_card c (length c - 1 - j)) ≡ dest % 4)
            × (card_rank (col_get_card c (length c - 1 - j)) ≡ g dest + 1 + j))
        (f.columns src a) f.foundations run,
  )
  normalized-IsLegalOf u s out MoveType.canonize_move src dest num f k h = absurd h
  normalized-IsLegalOf u s out _ src dest num f k h = k

-- What is asked of a move: no less than that it is legal, nothing of the canonizing, and the same of
-- a move and of its normalized form, for the state that it follows.
pub record Rule (d : Dims) (P : State → Move → Type 0) : Type 0 where
  pub legal : (st : State) (m : Move) → P st m → IsLegal d st m
  pub canonizes : (st : State) → P st canonizing
  pub carried :
      (u s : State) (l : Locs) (out : Move) (t : MoveType) (src dest num : ℕ)
      → Follows d u s l
      → P s (move_of t src dest num)
      → IsMade t
      → P u (normalize_move l out (move_of t src dest num))

pub IsLegal-Rule : (d : Dims) → Rule d (IsLegal d)
IsLegal-Rule d = record {
  legal = λ st m h. h;
  canonizes = λ st. tt;
  carried = λ u s l out t src dest num f h k. normalized-IsLegalOf d l u s out t src dest num f h k;
}
