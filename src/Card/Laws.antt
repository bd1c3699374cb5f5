-- ===== src/Card/Laws.antt =====
-- The fields of a card.
use investigate_lack_of_pgo.Prelude.{
  ℕ, ◌+◌, ◌*◌, ◌/◌, ◌%◌, ◌<◌, ◌≡◌, refl, arith, true, ◌==◌, ==_iff, all_below, all_below_sound,
}
use investigate_lack_of_pgo.Card.{Card, make_card, card_rank, card_suit}

make_card_table :
    all_below 32 (λ rank. all_below 4 (λ suit. make_card rank suit == rank * 4 + suit)) ≡ true
unfolding all_below make_card
make_card_table = refl

pub make_card_sum : (rank suit : ℕ) → rank < 32 → suit < 4 → make_card rank suit ≡ rank * 4 + suit
make_card_sum rank suit h k =
    (==_iff _ _).0 (all_below_sound 4 suit _ (all_below_sound 32 rank _ make_card_table h) k)

-- `fcs_make_card` packs a rank of five bits and a suit so that both can be read back.
pub make_card_fields :
    (rank suit : ℕ)
    → rank < 32
    → suit < 4
    → (card_rank (make_card rank suit) ≡ rank)
      × (card_suit (make_card rank suit) ≡ suit)
      × (make_card rank suit < 128)
unfolding card_rank card_suit
make_card_fields rank suit h k = omega (arith, make_card_sum rank suit h k)

-- A card is made of its rank and its suit.
pub make_card-fields :
    (card : Card) → card < 128 → make_card (card_rank card) (card_suit card) ≡ card
unfolding card_rank card_suit
make_card-fields card h =
    omega (arith, make_card_sum (card / 4) (card % 4) (omega arith) (omega arith))
