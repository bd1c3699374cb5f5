-- ===== src/Freecell/Prune/Pruned.antt =====
-- The pruning ends, with a state that its moves lead to and where no card is safe to move.
use investigate_lack_of_pgo.Prelude.{
  ℕ, zero, suc, ◌+◌, ◌*◌, ◌≤◌, ◌<◌, ◌≡◌, refl, ◌∙◌, sym, subst, arith, Bool, false, ◌&&◌, ◌==◌,
  ==_iff, all_below, ltb, if◌then◌else◌, Bool-cases, both_true, Option, Option-cases, some, none,
  inl, inr, length, sum_below-update,
}
use investigate_lack_of_pgo.Card.{Card, card_is_empty, empty_card, card_rank}
use investigate_lack_of_pgo.State.{
  State, Dims, col_top, col_pop_top, set_col, increment_foundation, empty_freecell,
}
use investigate_lack_of_pgo.State.Changes.{length-col_pop_top}
use investigate_lack_of_pgo.Move.Single.{IsNext}
use investigate_lack_of_pgo.Freecell.{
  Deriving, check_state_begin, copy_stack, column_to_foundation, freecell_to_foundation,
}
use investigate_lack_of_pgo.Freecell.Loops.{find_from, find_from-FoundFrom, Succeeds}
use investigate_lack_of_pgo.Freecell.Recorded.{Recorded, begin-Recorded, copy_stack-Recorded}
use investigate_lack_of_pgo.Freecell.Primitives.{
  column_to_foundation-Recorded, freecell_to_foundation-Recorded,
}
use investigate_lack_of_pgo.Freecell.Founds.{takes}
use investigate_lack_of_pgo.Freecell.FoundsRecorded.{takes-IsNext, found_of_deck}
use investigate_lack_of_pgo.Freecell.Prune.{
  is_close, calc_foundation_to_put_card_on, prune_column, prune_freecell, visit, prune_round,
  prune_loop, cards_left, raymond_prune,
}

-- What a step that moves a card does.
pub record Step (d : Dims) (parent : State) (x y : Deriving) : Type 0 where
  pub recorded : Recorded d parent y
  pub fewer : cards_left d y.st + 1 ≡ cards_left d x.st

abbrev pub StepTo : Dims → State → Deriving → Option Deriving → Type 0
StepTo d parent x none = Unit {0}
StepTo d parent x (some y) = Step d parent x y

-- a body that moves a card as it should, if it moves one
abbrev pub Steps : Dims → State → (ℕ → Deriving → Option Deriving) → ℕ → Type 0
Steps d parent body n =
    (i : ℕ) (x : Deriving) → i < n → Recorded d parent x → StepTo d parent x (body i x)

-- After a loop: a card fewer for each that was counted; without any, nothing has changed, and no
-- index had a card to move.
pub record Visited (d : Dims) (parent : State) (body : ℕ → Deriving → Option Deriving)
    (i rounds : ℕ) (x : Deriving) (moved : ℕ) (out : Deriving × ℕ) : Type 0 where
  pub recorded : Recorded d parent out.0
  pub counted : cards_left d out.0.st + out.1 ≡ cards_left d x.st + moved
  pub more : moved ≤ out.1
  pub still : out.1 ≡ moved → (out.0 ≡ x) × ((j : ℕ) → i ≤ j → j < i + rounds → body j x ≡ none)

visit-Visited :
    (d : Dims) (parent : State) (body : ℕ → Deriving → Option Deriving) (n i rounds : ℕ)
    (x : Deriving) (moved : ℕ)
    → Steps d parent body n
    → i + rounds ≤ n
    → Recorded d parent x
    → Visited d parent body i rounds x moved (visit body i rounds x moved)
unfolding visit
visit-Visited d parent body n i zero x moved steps h r = record {
  recorded = r;
  counted = refl;
  more = omega arith;
  still = λ e. (refl, λ j p q. absurd (omega arith));
}
visit-Visited d parent body n i (suc rounds) x moved steps h r = elim (Option-cases (body i x)) [
  | inl e ↦
      let rest = visit-Visited d parent body n (i + 1) rounds x moved steps (omega (arith, h)) r in
      rw (e, visit)
        (record {
          recorded = rest.recorded;
          counted = rest.counted;
          more = rest.more;
          still = λ s. (
            (rest.still s).0,
            λ j p q. elim (Bool-cases (i == j)) [
              | inl same ↦ subst (λ k. body k x ≡ none) (ground (arith, same)) e
              | inr other ↦ (rest.still s).1 j (ground (arith, p, other)) (omega (arith, q))
            ],
          );
        })
  | inr (y, e) ↦
      let step : Step d parent x y = subst (StepTo d parent x) e (steps i x (omega (arith, h)) r) in
      let rest =
        visit-Visited d parent body n (i + 1) rounds y (moved + 1) steps (omega (arith, h))
          step.recorded in
      rw (e, visit)
        (record {
          recorded = rest.recorded;
          counted = omega (arith, rest.counted, step.fewer);
          more = omega (arith, rest.more);
          still = λ s. absurd (omega (arith, rest.more, s));
        })
]

abbrev Takes : Dims → State → Card → Option ℕ → Type 0
Takes d st card none = Unit {0}
Takes d st card (some f) = (f < d.decks_num * 4) × IsNext st f card

-- A foundation that is found takes the card.
calc-Takes :
    (d : Dims) (st : State) (card : Card)
    → Takes d st card (calc_foundation_to_put_card_on d st card)
unfolding calc_foundation_to_put_card_on
calc-Takes d st card =
    let close = all_below (d.decks_num * 4) (is_close st card) in
    let test : ℕ → Bool = λ deck. takes st card deck && close in
    let deck = find_from test 0 d.decks_num in
    let found = find_from-FoundFrom test 0 d.decks_num in
    elim (Bool-cases (ltb deck d.decks_num)) [
      | inl e ↦
          let lt : deck < d.decks_num = ground (arith, e) in
          let both = both_true (takes st card deck) close (found.passes (omega (arith, lt))) in
          rw e (found_of_deck d card deck lt, takes-IsNext st card deck both.0)
      | inr e ↦ rw e tt
    ]

column_up-fewer :
    (d : Dims) (st : State) (i f : ℕ)
    → i < d.stacks_num
    → 1 ≤ length (st.stacks i)
    → cards_left d (increment_foundation (set_col st i (col_pop_top (st.stacks i))) f) + 1
      ≡ cards_left d st
unfolding cards_left
column_up-fewer d st i f h k = omega (
  arith,
  sum_below-update length d.stacks_num st.stacks i (col_pop_top (st.stacks i)) h,
  length-col_pop_top (st.stacks i),
)

freecell_up-fewer :
    (d : Dims) (st : State) (i f : ℕ)
    → i < d.freecells_num
    → card_is_empty (st.freecells i) ≡ false
    → cards_left d (increment_foundation (empty_freecell st i) f) + 1 ≡ cards_left d st
unfolding cards_left card_is_empty card_rank
freecell_up-fewer d st i f h k = ground (
  arith,
  k,
  sum_below-update (λ c. if card_is_empty c then 0 else 1) d.freecells_num st.freecells i empty_card
      h,
)

column-Steps : (d : Dims) (parent : State) → Steps d parent (prune_column d) d.stacks_num
unfolding prune_column
column-Steps d parent i x h r = elim (Bool-cases (length (x.st.stacks i) == 0)) [
  | inl e ↦ rw e tt
  | inr e ↦
      let card = col_top (x.st.stacks i) in
      let full : 1 ≤ length (x.st.stacks i) = ground (arith, e) in
      rw e (
        to_found card (calc_foundation_to_put_card_on d x.st card) refl full
          (calc-Takes d x.st card))
]
  where
    to_found :
        (card : Card) (o : Option ℕ)
        → col_top (x.st.stacks i) ≡ card
        → 1 ≤ length (x.st.stacks i)
        → Takes d x.st card o
        → StepTo d parent x
            (elim o [ none ↦ none | some f ↦ some (column_to_foundation (copy_stack x i) i f) ])
    to_found card none same full t = tt
    to_found card (some f) same full (below, next) = record {
      recorded =
          column_to_foundation-Recorded d parent (copy_stack x i)
            (copy_stack-Recorded d parent x r i) i f
            (h, below, full, subst (IsNext x.st f) (sym same) next) (ground arith);
      fewer = column_up-fewer d x.st i f h full;
    }

freecell-Steps : (d : Dims) (parent : State) → Steps d parent (prune_freecell d) d.freecells_num
unfolding prune_freecell
freecell-Steps d parent i x h r = elim (Bool-cases (card_is_empty (x.st.freecells i))) [
  | inl e ↦ rw e tt
  | inr e ↦
      let card = x.st.freecells i in
      rw e
        (to_found card (calc_foundation_to_put_card_on d x.st card) refl e (calc-Takes d x.st card))
]
  where
    to_found :
        (card : Card) (o : Option ℕ)
        → x.st.freecells i ≡ card
        → card_is_empty (x.st.freecells i) ≡ false
        → Takes d x.st card o
        → StepTo d parent x (elim o [ none ↦ none | some f ↦ some (freecell_to_foundation x i f) ])
    to_found card none same full t = tt
    to_found card (some f) same full (below, next) = record {
      recorded =
          freecell_to_foundation-Recorded d parent x r i f
            (h, below, subst (IsNext x.st f) (sym same) next);
      fewer = freecell_up-fewer d x.st i f h full;
    }

-- What the pruning ends with.
pub record Pruned (d : Dims) (parent : State) (start : ℕ) (out : Deriving × ℕ) : Type 0 where
  pub recorded : Recorded d parent out.0
  pub counted : cards_left d out.0.st + out.1 ≡ start
  pub no_column : (i : ℕ) → i < d.stacks_num → prune_column d i out.0 ≡ none
  pub no_freecell : (i : ℕ) → i < d.freecells_num → prune_freecell d i out.0 ≡ none

prune_loop-Pruned :
    (fuel : ℕ) (d : Dims) (parent : State) (x : Deriving) (total : ℕ)
    → cards_left d x.st < fuel
    → Recorded d parent x
    → Succeeds (Pruned d parent (cards_left d x.st + total)) (prune_loop fuel d x total)
unfolding prune_loop prune_round
prune_loop-Pruned zero d parent x total h r = absurd (omega (arith, h))
prune_loop-Pruned (suc fuel) d parent x total h r =
    let first = visit (prune_column d) 0 d.stacks_num x 0 in
    let cols =
      visit-Visited d parent (prune_column d) d.stacks_num 0 d.stacks_num x 0
        (column-Steps d parent) (omega arith) r in
    let cells =
      visit-Visited d parent (prune_freecell d) d.freecells_num 0 d.freecells_num first.0 first.1
        (freecell-Steps d parent) (omega arith) cols.recorded in
    let (y, moved) = visit (prune_freecell d) 0 d.freecells_num first.0 first.1 in
    let start = cards_left d x.st + total in
    elim (Bool-cases (moved == 0)) [
      | inl e ↦
          let none_moved : moved ≡ 0 = (==_iff moved 0).0 e in
          let (same, at_columns) = cols.still (omega (arith, none_moved, cells.more)) in
          let (same', at_cells) = cells.still (omega (arith, none_moved, cells.more)) in
          rw e (record {
            recorded = cells.recorded;
            counted = omega (arith, cells.counted, cols.counted);
            no_column = λ i q.
                subst (λ z. prune_column d i z ≡ none) (sym (same' ∙ same))
                  (at_columns i (omega arith) (omega (arith, q)));
            no_freecell = λ i q.
                subst (λ z. prune_freecell d i z ≡ none) (sym same')
                  (at_cells i (omega arith) (omega (arith, q)));
          })
      | inr e ↦ rw e (
          subst (λ n. Succeeds (Pruned d parent n) (prune_loop fuel d y (total + moved)))
            (omega (arith, cells.counted, cols.counted))
            (prune_loop-Pruned fuel d parent y (total + moved)
              (ground (arith, e, h, cells.counted, cols.counted)) cells.recorded))
    ]

-- `fc_solve_sfs_raymond_prune` ends: its loop makes at most one round more than there are cards in the
-- columns and freecells. The state that it gives is the one that the moves it recorded lead to, which
-- are legal; as many cards are gone from the columns and freecells as it says that it moved, and from
-- no column and no freecell of that state does it have another card to move.
pub raymond_prune-Pruned :
    (d : Dims) (st : State) → Succeeds (Pruned d st (cards_left d st)) (raymond_prune d st)
unfolding raymond_prune
raymond_prune-Pruned d st =
    subst (λ n. Succeeds (Pruned d st n) (raymond_prune d st)) (omega arith)
      (prune_loop-Pruned (cards_left d st + 1) d st (check_state_begin st) 0 (omega arith)
        (begin-Recorded d st))
