-- ===== src/Freecell/Positions/Parents.antt =====
-- FCS_POS_IDX_TO_CHECK_START_LOOP finds places that the card may be put on.
use investigate_lack_of_pgo.Prelude.{
  ℕ, ◌-◌, ◌%◌, ◌<◌, ◌≡◌, refl, arith, bit_and, bit_xor, true, ◌==◌, ==_iff, Option, some, none,
  List, [], all_below, all_below_sound,
}
use investigate_lack_of_pgo.Card.{Card, card_rank, card_suit, card_is_empty}
use investigate_lack_of_pgo.State.{State, Dims}
use investigate_lack_of_pgo.Freecell.{Derived, is_parent_card, card_is_valid}
use investigate_lack_of_pgo.Freecell.Loops.{Yields, for_from-Yields}
use investigate_lack_of_pgo.Freecell.Positions.{
  slot_of, positions_by_rank, slot_to_check, check_positions,
}
use investigate_lack_of_pgo.Freecell.Positions.Placed.{
  OneDeck, IsOpen, Entry, card_at, positions_by_rank-Placed,
}

other_color_table : all_below 4 (λ s. bit_and (bit_xor s 1) 1 == 1 - s % 2) ≡ true
unfolding all_below
other_color_table = refl

other_color : (s : ℕ) → s < 4 → bit_and (bit_xor s 1) 1 ≡ 1 - s % 2
other_color s h = (==_iff _ _).0 (all_below_sound 4 s _ other_color_table h)

-- The slots that the loop goes through are those of the two suits of the other colour, of the rank
-- above the card's.
checked_slot-is_parent_card :
    (card dest k : ℕ)
    → card_is_valid dest ≡ true
    → k < 2
    → slot_of dest ≡ slot_to_check card k
    → is_parent_card card dest ≡ true
unfolding slot_of slot_to_check is_parent_card card_rank card_suit card_is_empty
checked_slot-is_parent_card card dest k valid h e =
    ground (arith, valid, h, e, other_color (card % 4) (omega arith))

pub check_positions-Yields :
    (d : Dims) (st : State) (P : Derived → Type 0) (card : Card)
    (body : ℕ → ℕ → Option (List Derived))
    → OneDeck d st
    → ((ds dc : ℕ)
        → IsOpen d st ds dc
        → is_parent_card card (card_at st ds dc) ≡ true
        → Yields P (body ds dc))
    → Yields P (check_positions (positions_by_rank d st) card body)
unfolding check_positions
check_positions-Yields d st P card body deck h = for_from-Yields P 0 2 _ (λ k low high.
    at_slot k (omega (arith, high)) (positions_by_rank d st (slot_to_check card k))
      ((positions_by_rank-Placed d st deck).sound (slot_to_check card k)))
  where
    at_slot :
        (k : ℕ)
        → k < 2
        → (o : Option (ℕ × ℕ)) → Entry d st d.stacks_num 0 (slot_to_check card k) o
        → Yields P (elim o [ none ↦ some [] | some (ds, dc) ↦ body ds dc ])
    at_slot k l none e = tt
    at_slot k l (some (ds, dc)) (bare, before, slot) =
        h ds dc bare
          (checked_slot-is_parent_card card (card_at st ds dc) k (deck.valid ds dc bare.0) l slot)
