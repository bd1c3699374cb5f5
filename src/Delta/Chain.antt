-- ===== src/Delta/Chain.antt =====
-- What fc_solve_get_column_orig_num_cards leaves above is a sequence.
use investigate_lack_of_pgo.Prelude.{
  ℕ, zero, suc, ◌-◌, ◌≤◌, ◌<◌, ◌≡◌, refl, arith, true, ◌==◌, if◌then◌else◌, Bool-cases, inl, inr,
  length, all_below, all_below_sound, ==_iff,
}
use investigate_lack_of_pgo.Card.{Card, make_card, card_rank, card_suit, is_parent_card}
use investigate_lack_of_pgo.State.{Column, col_get_card}
use investigate_lack_of_pgo.Delta.{orig_loop, orig_num_cards, suit_bit, next_card}

module _ (col : Column) where
  orig_loop-le : (n : ℕ) → orig_loop col n ≤ n
  unfolding orig_loop
  orig_loop-le zero = omega arith
  orig_loop-le (suc n) = ground (arith, orig_loop-le n)

  orig_loop-chain :
      (n i : ℕ)
      → orig_loop col n ≤ i
      → i < n
      → 1 ≤ i
      → is_parent_card (col_get_card col i) (col_get_card col (i - 1)) ≡ true
  unfolding orig_loop
  orig_loop-chain zero i h k p = absurd (omega arith)
  orig_loop-chain (suc n) i h k p = elim (Bool-cases (i == n)) [
    | inl e ↦ ground arith
    | inr e ↦ ground (arith, orig_loop-chain n i)
  ]

  pub orig_num_cards-le : orig_num_cards col ≤ length col
  unfolding orig_num_cards
  orig_num_cards-le = ground (arith, orig_loop-le (length col))

  -- Every card from there on, the bottom one aside, can be placed on the one below it.
  pub orig_num_cards-chain :
      (i : ℕ)
      → orig_num_cards col ≤ i
      → i < length col
      → 1 ≤ i
      → is_parent_card (col_get_card col i) (col_get_card col (i - 1)) ≡ true
  unfolding orig_num_cards
  orig_num_cards-chain i h k p =
      ground (arith, orig_loop-chain (length col) i, orig_loop-le (length col))

next_card_table :
    all_below 64
      (λ c. all_below 68 (λ p. if is_parent_card c p then next_card (suit_bit c) p == c else true))
    ≡ true
unfolding all_below next_card suit_bit is_parent_card make_card
next_card_table = refl

parent-lt : (child parent : Card) → child < 64 → is_parent_card child parent ≡ true → parent < 68
unfolding is_parent_card card_rank card_suit
parent-lt child parent h k = ground arith

-- The suit bit of a child is enough to find the child from its parent.
pub next_card_lem :
    (child parent : Card)
    → child < 64
    → is_parent_card child parent ≡ true
    → next_card (suit_bit child) parent ≡ child
next_card_lem child parent h k =
    let row =
      all_below_sound 68 parent
        (λ p. if is_parent_card child p then next_card (suit_bit child) p == child else true)
        (all_below_sound 64 child _ next_card_table h) (parent-lt child parent h k) in
    (==_iff _ _).0 (rw k at row)

pub suit_bit-lt : (card : Card) → suit_bit card < 2
unfolding suit_bit
suit_bit-lt card = omega arith
