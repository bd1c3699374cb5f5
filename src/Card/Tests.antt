-- ===== src/Card/Tests.antt =====
-- Runs of the card conversions at concrete inputs.
use investigate_lack_of_pgo.Prelude.{◌<◌, ◌≡◌, refl, arith, true, [], ◌∷◌, ◌++◌}
use investigate_lack_of_pgo.Card.{
  make_card, card_rank, card_suit, card_is_empty, card_user2perl, card_perl2user, is_parent_card,
}
use investigate_lack_of_pgo.Card.Laws.{make_card_fields}
use investigate_lack_of_pgo.Card.Text.{card_user2perl-card_perl2user}

-- "10d" and "Q S"; the second is read as a queen of hearts, since a space ends the search of a suit
parsed : card_user2perl (b'1' ∷ b'0' ∷ b'd' ∷ []) ≡ make_card 10 2
unfolding card_user2perl
parsed = refl

space_is_hearts : card_user2perl (b'Q' ∷ b' ' ∷ b'S' ∷ []) ≡ make_card 12 0
unfolding card_user2perl
space_is_hearts = refl

red_on_black : is_parent_card (make_card 9 2) (make_card 10 3) ≡ true
unfolding is_parent_card make_card
red_on_black = refl

card_user2perl-card_perl2user_example :
    card_user2perl (card_perl2user 43 true ++ b' ' ∷ b'3' ∷ b'H' ∷ []) ≡ 43
unfolding card_is_empty
card_user2perl-card_perl2user_example =
    card_user2perl-card_perl2user 43 true (b' ' ∷ b'3' ∷ b'H' ∷ []) (omega arith) refl

make_card_fields_example :
    (card_rank (make_card 12 3) ≡ 12) × (card_suit (make_card 12 3) ≡ 3) × (make_card 12 3 < 128)
make_card_fields_example = make_card_fields 12 3 (omega arith) (omega arith)
