-- ===== src/State/ValidityLaws.antt =====
-- The verdict of fc_solve_check_state_validity says what is the matter with the state.
use investigate_lack_of_pgo.Prelude.{
  ℕ, zero, suc, ◌+◌, ◌≤◌, ◌<◌, ◌≡◌, refl, ◌∙◌, ◌↔◌, sym, subst, ◌&&◌, ltb, ◌==◌, arith, Bool-cases,
  inl, inr, Option, some, none,
}
use native.Mathlib.Nat.{zero-add}
use investigate_lack_of_pgo.Card.{make_card}
use investigate_lack_of_pgo.State.{State, Dims}
use investigate_lack_of_pgo.State.Validity.{
  Table, Validity, valid, missing_card, extra_card, empty_slot, check_ranks, check_suits,
  mark_columns, marked_cells, check_state_validity,
}
use investigate_lack_of_pgo.State.Count.{occurrences, in_stacks}
use investigate_lack_of_pgo.State.Marks.{
  IsFilled, marked_cells_lem, ColumnsMarked, all_marked, one_has_empty, mark_columns_lem,
}

-- What a verdict means, for the number of times that each card is there.
pub data Means (t : Table) (decks suit rank : ℕ) : Validity → Type 0 where
  all_there :
      ((s r : ℕ) → suit ≤ s → s < 4 → 1 ≤ r → r ≤ 13 → (s ≡ suit → rank ≤ r) → t s r ≡ decks)
      → Means t decks suit rank valid
  too_few :
      (s r : ℕ)
      → s < 4
      → 1 ≤ r
      → r ≤ 13
      → t s r < decks
      → Means t decks suit rank (missing_card (make_card r s))
  too_many :
      (s r : ℕ)
      → s < 4
      → 1 ≤ r
      → r ≤ 13
      → decks < t s r
      → Means t decks suit rank (extra_card (make_card r s))

-- a rank that is right, in front of the others
cons-Means :
    (t : Table) (decks suit rank : ℕ) {v : Validity}
    → t suit rank ≡ decks
    → Means t decks suit (rank + 1) v
    → Means t decks suit rank v
cons-Means t decks suit rank e (all_there right) = all_there (λ s r a b c d from.
    elim (Bool-cases (s == suit && r == rank)) [
      | inl same ↦ ground (arith, e)
      | inr other ↦ right s r a b c d (λ q. ground (arith, from q))
    ])
cons-Means t decks suit rank e (too_few s r a b c h) = too_few s r a b c h
cons-Means t decks suit rank e (too_many s r a b c h) = too_many s r a b c h

check_ranks_lem :
    (t : Table) (decks suit rank n : ℕ) (otherwise : Validity)
    → suit < 4
    → 1 ≤ rank
    → rank + n ≡ 14
    → Means t decks suit 14 otherwise
    → Means t decks suit rank (check_ranks t decks suit rank n otherwise)
unfolding check_ranks
check_ranks_lem t decks suit rank zero otherwise h k e m =
    let done : rank ≡ 14 = omega arith in rw done m
check_ranks_lem t decks suit rank (suc n) otherwise h k e m =
    elim (Bool-cases (t suit rank == decks)) [
      | inl right ↦ rw right (
          cons-Means t decks suit rank (ground arith)
            (check_ranks_lem t decks suit (rank + 1) n otherwise h (omega arith) (omega arith) m))
      | inr wrong ↦ elim (Bool-cases (ltb (t suit rank) decks)) [
        | inl few ↦ rw (wrong, few) (too_few suit rank h k (omega arith) (ground arith))
        | inr many ↦ rw (wrong, many) (too_many suit rank h k (omega arith) (ground arith))
      ]
    ]

-- the next suits, behind a suit whose ranks are all checked
next_suit :
    (t : Table) (decks suit : ℕ) {v : Validity}
    → Means t decks (suc suit) 1 v
    → Means t decks suit 14 v
next_suit t decks suit (all_there right) = all_there (λ s r a b c d from.
    let beyond : suc suit ≤ s = ground (arith, from) in right s r beyond b c d (λ q. c))
next_suit t decks suit (too_few s r a b c h) = too_few s r a b c h
next_suit t decks suit (too_many s r a b c h) = too_many s r a b c h

check_suits_lem :
    (t : Table) (decks suit n : ℕ)
    → suit + n ≡ 4
    → Means t decks suit 1 (check_suits t decks suit n)
unfolding check_suits
check_suits_lem t decks suit zero e = all_there (λ s r a b. absurd (omega arith))
check_suits_lem t decks suit (suc n) e =
    let next : suit + 1 ≡ suc suit = omega arith in
    let ih : Means t decks (suc suit) 1 (check_suits t decks (suit + 1) n) =
      subst (λ k. Means t decks k 1 (check_suits t decks (suit + 1) n)) next
        (check_suits_lem t decks (suit + 1) n (omega arith)) in
    check_ranks_lem t decks suit 1 13 (check_suits t decks (suit + 1) n) (omega arith) (omega arith)
      (omega arith) (next_suit t decks suit ih)

-- What the verdict says of a state.
pub data Verdict (st : State) (d : Dims) : Validity → Type 0 where
  complete :
      ((i : ℕ) → i < d.stacks_num → IsFilled (st.stacks i))
      → ((suit rank : ℕ)
          → suit < 4
          → 1 ≤ rank
          → rank ≤ 13
          → occurrences suit rank d st ≡ d.decks_num)
      → Verdict st d valid
  lacks :
      (suit rank : ℕ)
      → suit < 4
      → 1 ≤ rank
      → rank ≤ 13
      → occurrences suit rank d st < d.decks_num
      → Verdict st d (missing_card (make_card rank suit))
  exceeds :
      (suit rank : ℕ)
      → suit < 4
      → 1 ≤ rank
      → rank ≤ 13
      → d.decks_num < occurrences suit rank d st
      → Verdict st d (extra_card (make_card rank suit))
  has_gap : (i : ℕ) → i < d.stacks_num → ¬ IsFilled (st.stacks i) → Verdict st d empty_slot

Means-Verdict :
    (t : Table) (st : State) (d : Dims) {v : Validity}
    → ((i : ℕ) → i < d.stacks_num → IsFilled (st.stacks i))
    → ((suit rank : ℕ) → 1 ≤ rank → t suit rank ≡ occurrences suit rank d st)
    → Means t d.decks_num 0 1 v
    → Verdict st d v
Means-Verdict t st d filled counts (all_there right) =
    complete filled
      (λ suit rank a b c. sym (counts suit rank b) ∙ right suit rank (omega arith) a b c (λ e. b))
Means-Verdict t st d filled counts (too_few s r a b c h) =
    lacks s r a b c (omega (arith, counts s r b))
Means-Verdict t st d filled counts (too_many s r a b c h) =
    exceeds s r a b c (omega (arith, counts s r b))

table-occurrences :
    (t : Table) (st : State) (d : Dims)
    → ((suit rank : ℕ)
        → t suit rank + in_stacks suit rank 0 st
          ≡ marked_cells st d suit rank + in_stacks suit rank (0 + d.stacks_num) st)
    → (suit rank : ℕ) → 1 ≤ rank
    → t suit rank ≡ occurrences suit rank d st
unfolding occurrences in_stacks
table-occurrences t st d sums suit rank h =
    omega (arith, rw zero-add at (sums suit rank), marked_cells_lem st d suit rank h)

columns-Verdict :
    (st : State) (d : Dims) (o : Option Table)
    → ColumnsMarked (marked_cells st d) st 0 d.stacks_num o
    → Verdict st d (elim o [ none ↦ empty_slot | some t ↦ check_suits t d.decks_num 0 4 ])
columns-Verdict st d (some t) (all_marked filled sums) =
    Means-Verdict t st d (λ i h. filled i (omega arith) (omega arith))
      (table-occurrences t st d sums) (check_suits_lem t d.decks_num 0 4 (omega arith))
columns-Verdict st d none (one_has_empty i h k e) = has_gap i (omega arith) e

-- `fc_solve_check_state_validity` finds what there is to find: it reports an empty slot only where
-- a column has one, a missing or an extra card only where the state has fewer or more of that card
-- than decks, and accepts only a state without empty slots that has every card of the four suits
-- once for each deck.
pub check_state_validity-Verdict :
    (st : State) (d : Dims) → Verdict st d (check_state_validity st d)
unfolding check_state_validity
check_state_validity-Verdict st d =
    columns-Verdict st d (mark_columns (marked_cells st d) st 0 d.stacks_num)
      (mark_columns_lem (marked_cells st d) st 0 d.stacks_num)

-- A state is complete if it has no empty slots and every card once for each deck.
pub record IsComplete (st : State) (d : Dims) : Type 0 where
  pub filled : (i : ℕ) → i < d.stacks_num → IsFilled (st.stacks i)
  pub all_cards :
      (suit rank : ℕ) → suit < 4 → 1 ≤ rank → rank ≤ 13 → occurrences suit rank d st ≡ d.decks_num

valid_of_complete :
    (st : State) (d : Dims) {v : Validity} → IsComplete st d → Verdict st d v → v ≡ valid
valid_of_complete st d c (complete filled cards) = refl
valid_of_complete st d c (lacks s r a b e h) = absurd (omega (arith, c.all_cards s r a b e))
valid_of_complete st d c (exceeds s r a b e h) = absurd (omega (arith, c.all_cards s r a b e))
valid_of_complete st d c (has_gap i h e) = absurd (e (c.filled i h))

IsComplete-valid :
    (st : State) (d : Dims) {v : Validity} → v ≡ valid → Verdict st d v → IsComplete st d
IsComplete-valid st d e (complete filled cards) = record { filled = filled; all_cards = cards }
IsComplete-valid st d e (lacks s r a b f h) = cc
IsComplete-valid st d e (exceeds s r a b f h) = cc
IsComplete-valid st d e (has_gap i h f) = cc

-- `fc_solve_check_state_validity` accepts exactly the complete states.
pub check_state_validity-eq-valid :
    (st : State) (d : Dims) → (check_state_validity st d ≡ valid) ↔ IsComplete st d
check_state_validity-eq-valid st d = (
  λ e. IsComplete-valid st d e (check_state_validity-Verdict st d),
  λ c. valid_of_complete st d c (check_state_validity-Verdict st d),
)
