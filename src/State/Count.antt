-- ===== src/State/Count.antt =====
-- How often a card stands in a state: the reading of a state as a collection of cards.
use investigate_lack_of_pgo.Prelude.{
  ℕ, ◌+◌, ◌*◌, ◌%◌, ◌≡◌, refl, ap, ◌==◌, ◌&&◌, leb, if◌then◌else◌, [], ◌∷◌, ◌++◌, sum_below, arith,
}
use investigate_lack_of_pgo.Card.{Card, card_rank, card_suit}
use investigate_lack_of_pgo.State.{Column, State, Dims}

-- 1 if the card has the suit and the rank
unfoldable pub is_card : ℕ → ℕ → Card → ℕ
unfolding card_suit card_rank
is_card suit rank card = if card_suit card == suit && card_rank card == rank then 1 else 0

unfoldable pub in_column : ℕ → ℕ → Column → ℕ
unfolding is_card
in_column suit rank [] = 0
in_column suit rank (card ∷ col) = is_card suit rank card + in_column suit rank col

-- 1 if foundation `d` with value `n` holds the card; the foundations go round the suits
unfoldable pub in_foundation : ℕ → ℕ → ℕ → ℕ → ℕ
in_foundation suit rank d n = if d % 4 == suit && leb rank n then 1 else 0

unfoldable pub in_stacks : ℕ → ℕ → ℕ → State → ℕ
unfolding in_column sum_below
in_stacks suit rank n st = sum_below n (λ s. in_column suit rank (st.stacks s))

unfoldable pub in_freecells : ℕ → ℕ → ℕ → State → ℕ
unfolding is_card sum_below
in_freecells suit rank n st = sum_below n (λ f. is_card suit rank (st.freecells f))

unfoldable pub in_foundations : ℕ → ℕ → ℕ → State → ℕ
unfolding in_foundation sum_below
in_foundations suit rank n st = sum_below n (λ d. in_foundation suit rank d (st.foundations d))

-- How often the card of the suit and the rank stands in the state; the rank is an ace's at least.
unfoldable pub occurrences : ℕ → ℕ → Dims → State → ℕ
unfolding in_stacks in_freecells in_foundations
occurrences suit rank d st =
    in_foundations suit rank (d.decks_num * 4) st
    + in_freecells suit rank d.freecells_num st
    + in_stacks suit rank d.stacks_num st

pub in_column-append :
    (suit rank : ℕ) (a b : Column)
    → in_column suit rank (a ++ b) ≡ in_column suit rank a + in_column suit rank b
unfolding in_column
in_column-append suit rank [] b = omega arith
in_column-append suit rank (card ∷ a) b = omega (arith, in_column-append suit rank a b)

module _ (suit rank : ℕ) where
  pub occurrences_lem :
      (d : Dims) (st : State)
      → occurrences suit rank d st
        ≡ in_foundations suit rank (d.decks_num * 4) st
          + in_freecells suit rank d.freecells_num st
          + in_stacks suit rank d.stacks_num st
  unfolding occurrences
  occurrences_lem d st = refl

  -- Each part depends on its own array alone.
  pub in_stacks_cong :
      (n : ℕ) (s t : State)
      → s.stacks ≡ t.stacks
      → in_stacks suit rank n s ≡ in_stacks suit rank n t
  unfolding in_stacks
  in_stacks_cong n s t e = ap (λ f. sum_below n (λ i. in_column suit rank (f i))) e

  pub in_freecells_cong :
      (n : ℕ) (s t : State)
      → s.freecells ≡ t.freecells
      → in_freecells suit rank n s ≡ in_freecells suit rank n t
  unfolding in_freecells
  in_freecells_cong n s t e = ap (λ f. sum_below n (λ i. is_card suit rank (f i))) e

  pub in_foundations_cong :
      (n : ℕ) (s t : State)
      → s.foundations ≡ t.foundations
      → in_foundations suit rank n s ≡ in_foundations suit rank n t
  unfolding in_foundations
  in_foundations_cong n s t e = ap (λ f. sum_below n (λ i. in_foundation suit rank i (f i))) e
