-- ===== src/State/Changes.antt =====
-- How the changes of one column, freecell or foundation change the count of a card.
use investigate_lack_of_pgo.Prelude.{
  ℕ, zero, suc, ◌+◌, ◌-◌, ◌%◌, ◌≤◌, ◌<◌, ◌≡◌, refl, [], ◌∷◌, arith, sum_below-update,
  sum_below-update_at, length,
}
use investigate_lack_of_pgo.Card.{Card, empty_card, card_rank, card_suit}
use investigate_lack_of_pgo.State.{
  Column, State, col_pop_top, col_top, col_push_card, set_col, put_card_in_freecell,
  increment_foundation, col_get_card,
}
use investigate_lack_of_pgo.State.Count.{
  is_card, in_column, in_foundation, in_stacks, in_freecells, in_foundations, in_column-append,
}

pub length-col_pop_top : (col : Column) → length (col_pop_top col) ≡ length col - 1
unfolding col_pop_top
length-col_pop_top [] = omega arith
length-col_pop_top (x ∷ []) = omega arith
length-col_pop_top (x ∷ y ∷ col) = omega (arith, length-col_pop_top (y ∷ col))

-- The cards under the top one stay.
pub get-col_pop_top :
    (col : Column) (i : ℕ)
    → i + 1 < length col
    → col_get_card (col_pop_top col) i ≡ col_get_card col i
unfolding col_pop_top
get-col_pop_top [] i h = absurd (omega arith)
get-col_pop_top (x ∷ []) i h = absurd (omega arith)
get-col_pop_top (x ∷ y ∷ col) zero h = refl
get-col_pop_top (x ∷ y ∷ col) (suc i) h = get-col_pop_top (y ∷ col) i (omega arith)

module _ (suit rank : ℕ) where
  pub in_column-pop :
      (col : Column)
      → 1 ≤ length col
      → in_column suit rank (col_pop_top col) + is_card suit rank (col_top col)
        ≡ in_column suit rank col
  unfolding col_pop_top in_column
  in_column-pop [] h = absurd (omega arith)
  in_column-pop (x ∷ []) h = omega arith
  in_column-pop (x ∷ y ∷ col) h =
      let top : suc (suc (length col)) - 1 ≡ suc (length col) = omega arith in
      let below : suc (length col) - 1 ≡ length col = omega arith in
      let ih = in_column-pop (y ∷ col) (omega arith) in rw top (omega (arith, rw below at ih))

  pub in_column-push :
      (col : Column) (card : Card)
      → in_column suit rank (col_push_card col card)
        ≡ in_column suit rank col + is_card suit rank card
  unfolding in_column
  in_column-push col card = omega (arith, in_column-append suit rank col (card ∷ []))

  pub in_stacks-set_col :
      (n : ℕ) (st : State) (i : ℕ) (col : Column)
      → i < n
      → in_stacks suit rank n (set_col st i col) + in_column suit rank (st.stacks i)
        ≡ in_stacks suit rank n st + in_column suit rank col
  unfolding in_stacks
  in_stacks-set_col n st i col h = sum_below-update (in_column suit rank) n st.stacks i col h

  pub in_freecells-put :
      (n : ℕ) (st : State) (f : ℕ) (card : Card)
      → f < n
      → in_freecells suit rank n (put_card_in_freecell st f card)
          + is_card suit rank (st.freecells f)
        ≡ in_freecells suit rank n st + is_card suit rank card
  unfolding in_freecells
  in_freecells-put n st f card h = sum_below-update (is_card suit rank) n st.freecells f card h

  -- The card that a foundation takes next.
  in_foundation_suc :
      (d n : ℕ) (card : Card)
      → card_suit card ≡ d % 4
      → card_rank card ≡ n + 1
      → in_foundation suit rank d (n + 1) ≡ in_foundation suit rank d n + is_card suit rank card
  unfolding in_foundation is_card
  in_foundation_suc d n card h k = ground arith

  pub in_foundations-increment :
      (n : ℕ) (st : State) (d : ℕ) (card : Card)
      → d < n
      → card_suit card ≡ d % 4
      → card_rank card ≡ st.foundations d + 1
      → in_foundations suit rank n (increment_foundation st d)
        ≡ in_foundations suit rank n st + is_card suit rank card
  unfolding in_foundations
  in_foundations-increment n st d card h k l = omega (
    arith,
    sum_below-update_at (in_foundation suit rank) n st.foundations d (st.foundations d + 1) h,
    in_foundation_suc d (st.foundations d) card k l,
  )

  pub is_card-empty : 1 ≤ rank → is_card suit rank empty_card ≡ 0
  unfolding is_card
  is_card-empty h = ground arith
