-- ===== src/State/Orders.antt =====
-- The orders on cards and columns by which fc_solve_canonize_state sorts.
use investigate_lack_of_pgo.Prelude.{◌≡◌, refl, true, false, [], ◌∷◌, arith, Bool}
use investigate_lack_of_pgo.Card.{Card}
use investigate_lack_of_pgo.State.{Column, card_compare, stack_compare, is_negative}
use investigate_lack_of_pgo.InsertionSort.{Order}

abbrev pub card_less : Card → Card → Bool
card_less a b = is_negative (card_compare a b)

pub card_less_asymm : (a b : Card) → card_less a b ≡ true → card_less b a ≡ false
card_less_asymm a b h = ground arith

pub not_card_less_trans :
    (a b c : Card) → card_less b a ≡ false → card_less c b ≡ false → card_less c a ≡ false
not_card_less_trans a b c h k = ground arith

pub not_card_less_antisymm : (a b : Card) → card_less a b ≡ false → card_less b a ≡ false → a ≡ b
not_card_less_antisymm a b h k = ground arith

unfoldable pub card_order : Order Card
card_order = record {
  less = card_less;
  less_asymm = card_less_asymm;
  not_less_trans = not_card_less_trans;
  not_less_antisymm = not_card_less_antisymm;
}

unfoldable pub stack_less : Column → Column → Bool
stack_less a b = is_negative (stack_compare a b)

pub stack_less_asymm : (a b : Column) → stack_less a b ≡ true → stack_less b a ≡ false
unfolding stack_less stack_compare
stack_less_asymm [] [] h = refl
stack_less_asymm [] (y ∷ b) h = refl
stack_less_asymm (x ∷ a) [] h = cc
stack_less_asymm (x ∷ a) (y ∷ b) h = ground (arith, stack_less_asymm a b)

pub not_stack_less_trans :
    (a b c : Column) → stack_less b a ≡ false → stack_less c b ≡ false → stack_less c a ≡ false
unfolding stack_less stack_compare
not_stack_less_trans [] b [] h k = refl
not_stack_less_trans [] b (z ∷ c) h k = refl
not_stack_less_trans (x ∷ a) [] c h k = cc
not_stack_less_trans (x ∷ a) (y ∷ b) [] h k = cc
not_stack_less_trans (x ∷ a) (y ∷ b) (z ∷ c) h k = ground (arith, not_stack_less_trans a b c)

pub not_stack_less_antisymm :
    (a b : Column) → stack_less a b ≡ false → stack_less b a ≡ false → a ≡ b
unfolding stack_less stack_compare
not_stack_less_antisymm [] [] h k = refl
not_stack_less_antisymm [] (y ∷ b) h k = cc
not_stack_less_antisymm (x ∷ a) [] h k = cc
not_stack_less_antisymm (x ∷ a) (y ∷ b) h k = ground (arith, not_stack_less_antisymm a b)

unfoldable pub stack_order : Order Column
unfolding stack_less stack_compare
stack_order = record {
  less = stack_less;
  less_asymm = stack_less_asymm;
  not_less_trans = not_stack_less_trans;
  not_less_antisymm = not_stack_less_antisymm;
}
