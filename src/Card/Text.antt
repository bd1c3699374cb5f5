-- ===== src/Card/Text.antt =====
-- Cards as text.
use investigate_lack_of_pgo.Prelude.{
  ◌<◌, ◌≡◌, refl, arith, Bool, true, false, ◌==◌, ==_iff, ◌++◌, all_below, all_below_sound,
  both_true, ◌&&◌, ◌||◌,
}
use investigate_lack_of_pgo.Card.{
  Card, Text, card_is_empty, card_rank, card_suit, u2p_rank, u2p_suit, card_user2perl,
  card_perl2user,
}
use investigate_lack_of_pgo.Card.Laws.{make_card-fields}

text_table :
    (t : Bool) (rest : Text)
    → all_below 56 (λ card.
      card_is_empty card
      || (u2p_rank (card_perl2user card t ++ rest) == card_rank card
          && u2p_suit (card_perl2user card t ++ rest) == card_suit card))
      ≡ true
unfolding all_below card_is_empty u2p_rank u2p_suit card_perl2user card_rank card_suit
text_table true rest = refl
text_table false rest = refl

u2p-card_perl2user :
    (card : Card) (t : Bool) (rest : Text)
    → card < 56
    → card_is_empty card ≡ false
    → (u2p_rank (card_perl2user card t ++ rest) ≡ card_rank card)
      × (u2p_suit (card_perl2user card t ++ rest) ≡ card_suit card)
u2p-card_perl2user card t rest h k =
    let row = rw k at (all_below_sound 56 card _ (text_table t rest) h) in
    let (rank, suit) = both_true _ _ row in ((==_iff _ _).0 rank, (==_iff _ _).0 suit)

-- The text of a card, whichever way it writes the ten and whatever text follows, is read as the
-- card. (The empty card is left out.)
pub card_user2perl-card_perl2user :
    (card : Card) (t : Bool) (rest : Text)
    → card < 56
    → card_is_empty card ≡ false
    → card_user2perl (card_perl2user card t ++ rest) ≡ card
unfolding card_user2perl
card_user2perl-card_perl2user card t rest h k =
    let (rank, suit) = u2p-card_perl2user card t rest h k in
    rw (rank, suit) (make_card-fields card (omega arith))
