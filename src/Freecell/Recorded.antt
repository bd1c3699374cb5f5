-- ===== src/Freecell/Recorded.antt =====
-- What a derived state is: its moves, made from the state it comes from, follow the rules and lead
-- to it.
use investigate_lack_of_pgo.Prelude.{
  ℕ, ◌+◌, ◌-◌, ◌<◌, ◌≡◌, ◌⊎◌, refl, ◌∙◌, sym, ap, subst, true, false, none, [], ◌∷◌, length,
}
use investigate_lack_of_pgo.Card.{Card, card_is_empty}
use investigate_lack_of_pgo.State.{State, Dims, Column, col_get_card, col_top}
use investigate_lack_of_pgo.Move.{Move, MoveType, apply_move}
use investigate_lack_of_pgo.Move.Single.{IsLegal}
use investigate_lack_of_pgo.Move.Stack.{MoveStack, replay}
use investigate_lack_of_pgo.Move.Played.{StackedLegal}
use investigate_lack_of_pgo.Freecell.{
  Deriving, Derived, is_parent_card, check_state_begin, copy_stack,
}

-- The card may be put on the column: on an empty one, or on its parent.
abbrev pub MayPut : Card → Column → Type 0
MayPut card dest = (length dest ≡ 0) ⊎ (is_parent_card card (col_top dest) ≡ true)

-- What the game's rules say on top of `IsLegalOf`: a sequence is one of parents, and its first card
-- may be put on the destination, as may a card from a freecell, which is not empty.
abbrev pub IsAllowedOf : MoveType → State → ℕ → ℕ → ℕ → Type 0
IsAllowedOf MoveType.stack_to_stack st src dest num =
    ((j : ℕ)
      → j + 1 < num
      → is_parent_card (col_get_card (st.stacks src) (length (st.stacks src) - num + (j + 1)))
          (col_get_card (st.stacks src) (length (st.stacks src) - num + j))
        ≡ true)
    × MayPut (col_get_card (st.stacks src) (length (st.stacks src) - num)) (st.stacks dest)
IsAllowedOf MoveType.freecell_to_stack st src dest num =
    (card_is_empty (st.freecells src) ≡ false) × MayPut (st.freecells src) (st.stacks dest)
IsAllowedOf _ st src dest num = Unit {0}

abbrev pub IsAllowed : State → Move → Type 0
IsAllowed st m = IsAllowedOf m.type st m.src m.dest m.num_cards_in_seq

-- Pushed as they were made, each move followed the rules where it was made.
abbrev pub StackedAllowed : Dims → State → MoveStack → Type 0
StackedAllowed d st [] = Unit {0}
StackedAllowed d st (m ∷ stack) = StackedAllowed d st stack × IsAllowed (replay d st stack) m

pub record Recorded (d : Dims) (parent : State) (x : Deriving) : Type 0 where
  pub replayed : replay d parent x.moves ≡ x.st
  pub legal : StackedLegal d parent x.moves
  pub allowed : StackedAllowed d parent x.moves
  pub intact : x.intact ≡ true

-- The same of an item of the list of derived states.
abbrev pub RecordedItem : Dims → State → Derived → Type 0
RecordedItem d parent item = Recorded d parent item.0

pub begin-Recorded : (d : Dims) (parent : State) → Recorded d parent (check_state_begin parent)
unfolding replay
begin-Recorded d parent = record { replayed = refl; legal = tt; allowed = tt; intact = refl }

module _ (d : Dims) (parent : State) (x : Deriving) (r : Recorded d parent x) where
  pub copy_stack-Recorded : (i : ℕ) → Recorded d parent (copy_stack x i)
  copy_stack-Recorded i = record {
    replayed = r.replayed;
    legal = r.legal;
    allowed = r.allowed;
    intact = r.intact;
  }

  -- One more move, recorded as it is made.
  pub move-Recorded :
      (m : Move) (y : Deriving)
      → y.moves ≡ m ∷ x.moves
      → IsLegal d x.st m
      → IsAllowed x.st m
      → y.st ≡ (apply_move d x.st none m).0
      → y.intact ≡ true
      → Recorded d parent y
  unfolding replay
  move-Recorded m y pushed legal allowed made intact = record {
    replayed =
        ap (replay d parent) pushed ∙ ap (λ s. (apply_move d s none m).0) r.replayed ∙ sym made;
    legal =
        subst (StackedLegal d parent) (sym pushed)
          (r.legal, subst (λ s. IsLegal d s m) (sym r.replayed) legal);
    allowed =
        subst (StackedAllowed d parent) (sym pushed)
          (r.allowed, subst (λ s. IsAllowed s m) (sym r.replayed) allowed);
    intact = intact;
  }
