-- ===== src/State/Tests.antt =====
-- The state component at concrete inputs.
use investigate_lack_of_pgo.Prelude.{◌≡◌, ◌↔◌, refl, [], ◌∷◌, ◌==◌, if◌then◌else◌}
use investigate_lack_of_pgo.Card.{make_card}
use investigate_lack_of_pgo.State.{State, Dims}
use investigate_lack_of_pgo.State.Canonize.{
  SameLayout, SameUpToOrder, LocatedState, canonize, canonize_with_locs, init_locs,
  canonize-SameLayout, canonize_with_locs-LocatedState,
}
use investigate_lack_of_pgo.State.Validity.{valid, extra_card, check_state_validity}
use investigate_lack_of_pgo.State.ValidityLaws.{
  Verdict, IsComplete, check_state_validity-Verdict, check_state_validity-eq-valid,
}

abbrev dims : Dims
dims = record { freecells_num = 2; stacks_num = 2; decks_num = 1 }

-- two kings are in play, the rest is in the foundations
abbrev kings : State
kings = record {
  stacks = λ i. if i == 0 then 53 ∷ [] else [];
  freecells = λ i. if i == 1 then 52 else 0;
  foundations = λ i. if i == 0 then 12 else if i == 1 then 12 else 13;
}

-- the same with both places exchanged
abbrev other_kings : State
other_kings = record kings {
  stacks = λ i. if i == 1 then 53 ∷ [] else [];
  freecells = λ i. if i == 0 then 52 else 0;
}

accepted : check_state_validity kings dims ≡ valid
unfolding check_state_validity
accepted = refl

-- with a third king in a foundation
refused : check_state_validity (record kings { foundations = λ i. 13 }) dims ≡ extra_card 52
unfolding check_state_validity make_card
refused = refl

canonized : (canonize dims kings).stacks 1 ≡ 53 ∷ []
unfolding canonize
canonized = refl

canonize-SameLayout_example :
    SameLayout dims (canonize dims kings) (canonize dims other_kings)
    ↔ SameUpToOrder dims kings other_kings
canonize-SameLayout_example = canonize-SameLayout dims kings other_kings

canonize_with_locs-LocatedState_example :
    LocatedState dims kings (canonize_with_locs dims kings init_locs)
canonize_with_locs-LocatedState_example = canonize_with_locs-LocatedState dims kings

check_state_validity-Verdict_example : Verdict kings dims (check_state_validity kings dims)
check_state_validity-Verdict_example = check_state_validity-Verdict kings dims

check_state_validity-eq-valid_example :
    (check_state_validity kings dims ≡ valid) ↔ IsComplete kings dims
check_state_validity-eq-valid_example = check_state_validity-eq-valid kings dims
