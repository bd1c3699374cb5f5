-- ===== src/Freecell/Tidy.antt =====
-- No move that follows the rules brings a card of no rank into a column, or another card of no rank
-- than the empty one into a freecell.
use investigate_lack_of_pgo.Prelude.{
  ℕ, zero, suc, ◌≤◌, ◌<◌, ◌≡◌, refl, ◌∙◌, ap, arith, false, none, sum_below_zero, [], ◌∷◌,
}
use native.Mathlib.Nat.{zero-add}
use investigate_lack_of_pgo.Card.{Card, empty_card, card_is_empty, card_rank, card_suit}
use investigate_lack_of_pgo.State.{
  State, Dims, Column, set_col, put_card_in_freecell, empty_freecell, col_pop_top, col_top,
  col_push_card, increment_foundation,
}
use investigate_lack_of_pgo.State.Count.{
  is_card, in_column, in_stacks, in_freecells, in_stacks_cong, in_freecells_cong,
}
use investigate_lack_of_pgo.State.Changes.{
  in_column-pop, in_column-push, in_stacks-set_col, in_freecells-put,
}
use investigate_lack_of_pgo.State.Orders.{stack_order, card_order}
use investigate_lack_of_pgo.State.Canonize.{canonize}
use investigate_lack_of_pgo.InsertionSort.Sorted.{insertion_sort-tally}
use investigate_lack_of_pgo.InsertionSort.Places.{sum_below-term}
use investigate_lack_of_pgo.Move.{Move, MoveType, apply_move, push_seq, pop_cards, seq_up}
use investigate_lack_of_pgo.Move.Single.{IsLegal, IsLegalOf}
use investigate_lack_of_pgo.Move.Sequences.{
  top_card, push_seq-rest, push_seq-src, push_seq-in_stacks, pop_cards-rest, pop_cards-in_stacks,
}
use investigate_lack_of_pgo.Freecell.Recorded.{IsAllowed, IsAllowedOf}

pub record IsTidy (d : Dims) (st : State) : Type 0 where
  pub columns : (suit : ℕ) → in_stacks suit 0 d.stacks_num st ≡ 0
  pub cells : (suit : ℕ) → 1 ≤ suit → in_freecells suit 0 d.freecells_num st ≡ 0

pub in_column-le :
    (suit rank n : ℕ) (st : State) (i : ℕ)
    → i < n
    → in_column suit rank (st.stacks i) ≤ in_stacks suit rank n st
unfolding in_stacks
in_column-le suit rank n st i h = sum_below-term (λ j. in_column suit rank (st.stacks j)) n i h

pub is_card-le :
    (suit rank n : ℕ) (st : State) (i : ℕ)
    → i < n
    → is_card suit rank (st.freecells i) ≤ in_freecells suit rank n st
unfolding in_freecells
is_card-le suit rank n st i h = sum_below-term (λ j. is_card suit rank (st.freecells j)) n i h

in_column-popped :
    (suit rank : ℕ) (col : Column) → in_column suit rank (col_pop_top col) ≤ in_column suit rank col
unfolding col_pop_top in_column
in_column-popped suit rank [] = omega arith
in_column-popped suit rank (x ∷ col) =
    omega (arith, in_column-pop suit rank (x ∷ col) (omega arith))

no_rank-empty : (suit : ℕ) → 1 ≤ suit → is_card suit 0 empty_card ≡ 0
unfolding is_card card_suit card_rank
no_rank-empty suit h = ground (arith, h)

no_rank-full : (suit : ℕ) (card : Card) → card_is_empty card ≡ false → is_card suit 0 card ≡ 0
unfolding is_card card_rank card_is_empty
no_rank-full suit card h = ground (arith, h)

-- A column that loses its top card leaves no more cards of no rank.
popped-le :
    (suit n : ℕ) (st : State) (src : ℕ)
    → src < n
    → in_stacks suit 0 n (set_col st src (col_pop_top (st.stacks src))) ≤ in_stacks suit 0 n st
popped-le suit n st src h = omega (
  arith,
  in_stacks-set_col suit 0 n st src (col_pop_top (st.stacks src)) h,
  in_column-popped suit 0 (st.stacks src),
  in_column-le suit 0 n st src h,
)

seq_up-le :
    (suit n : ℕ) (st : State) (src dest rounds : ℕ)
    → src < n
    → in_stacks suit 0 n (seq_up st src dest rounds) ≤ in_stacks suit 0 n st
unfolding seq_up
seq_up-le suit n st src dest zero h = omega arith
seq_up-le suit n st src dest (suc rounds) h =
    let popped = set_col st src (col_pop_top (st.stacks src)) in
    omega (
      arith,
      seq_up-le suit n (increment_foundation popped dest) src dest rounds h,
      in_stacks_cong suit 0 n (increment_foundation popped dest) popped refl,
      popped-le suit n st src h,
    )

seq_up-freecells :
    (st : State) (src dest rounds : ℕ) → (seq_up st src dest rounds).freecells ≡ st.freecells
unfolding seq_up
seq_up-freecells st src dest zero = refl
seq_up-freecells st src dest (suc rounds) =
    seq_up-freecells (increment_foundation (set_col st src (col_pop_top (st.stacks src))) dest) src
      dest rounds

-- A sequence that moves from column to column leaves the count as it is.
sequence-in_stacks :
    (suit : ℕ) (d : Dims) (st : State) (src dest num : ℕ)
    → IsLegalOf MoveType.stack_to_stack d st src dest num
    → in_stacks suit 0 d.stacks_num (pop_cards (push_seq st src dest num num 0) src num)
      ≡ in_stacks suit 0 d.stacks_num st
sequence-in_stacks suit d st src dest num (a, b, ne, k) =
    let st' = push_seq st src dest num num 0 in
    let col : st'.stacks src ≡ st.stacks src = push_seq-src st src dest num num 0 ne in
    let pushed =
      push_seq-in_stacks suit 0 d.stacks_num st src dest num num 0 (st.stacks src) ne b refl in
    let popped = pop_cards-in_stacks suit 0 d.stacks_num st' src num a (rw col k) in
    omega (
      arith,
      rw zero-add at pushed,
      sum_below_zero (top_card suit 0 d.stacks_num (st.stacks src) num),
      rw col at popped,
    )

-- What a move does to the cards of no rank, column part and freecell part.
tidy :
    (d : Dims) (st st' : State)
    → IsTidy d st
    → ((suit : ℕ) → in_stacks suit 0 d.stacks_num st' ≤ in_stacks suit 0 d.stacks_num st)
    → ((suit : ℕ)
        → 1 ≤ suit
        → in_freecells suit 0 d.freecells_num st' ≤ in_freecells suit 0 d.freecells_num st)
    → IsTidy d st'
tidy d st st' t h k = record {
  columns = λ suit. omega (arith, h suit, t.columns suit);
  cells = λ suit one. omega (arith, k suit one, t.cells suit one);
}

module _ (d : Dims) (st : State) (t : IsTidy d st) where
  to_freecell-IsTidy :
      (src dest : ℕ)
      → IsLegalOf MoveType.stack_to_freecell d st src dest 1
      → IsTidy d (
          put_card_in_freecell
            (set_col st src (col_pop_top (st.stacks src)))
            dest
            (col_top (st.stacks src)))
  to_freecell-IsTidy src dest (a, b, k, free) =
      let popped = set_col st src (col_pop_top (st.stacks src)) in
      let end = put_card_in_freecell popped dest (col_top (st.stacks src)) in
      tidy d st end t
        (λ suit. omega (
          arith,
          in_stacks_cong suit 0 d.stacks_num end popped refl,
          popped-le suit d.stacks_num st src a,
        ))
        (λ suit one. omega (
          arith,
          in_freecells-put suit 0 d.freecells_num popped dest (col_top (st.stacks src)) b,
          in_freecells_cong suit 0 d.freecells_num popped st refl,
          in_column-pop suit 0 (st.stacks src) k,
          in_column-le suit 0 d.stacks_num st src a,
          t.columns suit,
        ))

  from_freecell-IsTidy :
      (src dest : ℕ)
      → IsLegalOf MoveType.freecell_to_stack d st src dest 1
      → card_is_empty (st.freecells src) ≡ false
      → IsTidy d
          (empty_freecell (set_col st dest (col_push_card (st.stacks dest) (st.freecells src))) src)
  from_freecell-IsTidy src dest (a, b) full =
      let card = st.freecells src in
      let pushed = set_col st dest (col_push_card (st.stacks dest) card) in
      tidy d st (empty_freecell pushed src) t
        (λ suit. omega (
          arith,
          in_stacks_cong suit 0 d.stacks_num (empty_freecell pushed src) pushed refl,
          in_stacks-set_col suit 0 d.stacks_num st dest (col_push_card (st.stacks dest) card) b,
          in_column-push suit 0 (st.stacks dest) card,
          no_rank-full suit card full,
        ))
        (λ suit one. omega (
          arith,
          in_freecells-put suit 0 d.freecells_num pushed src empty_card a,
          in_freecells_cong suit 0 d.freecells_num pushed st refl,
          no_rank-empty suit one,
        ))

  between_freecells-IsTidy :
      (src dest : ℕ)
      → IsLegalOf MoveType.freecell_to_freecell d st src dest 1
      → IsTidy d (empty_freecell (put_card_in_freecell st dest (st.freecells src)) src)
  between_freecells-IsTidy src dest (a, b, ne, free) =
      let card = st.freecells src in
      let put = put_card_in_freecell st dest card in
      let kept : put.freecells src ≡ card = ground (arith, ne) in
      tidy d st (empty_freecell put src) t
        (λ suit. omega (arith, in_stacks_cong suit 0 d.stacks_num (empty_freecell put src) st refl))
        (λ suit one. omega (
          arith,
          in_freecells-put suit 0 d.freecells_num st dest card b,
          in_freecells-put suit 0 d.freecells_num put src empty_card a,
          ap (is_card suit 0) kept,
          no_rank-empty suit one,
        ))

  freecell_up-IsTidy :
      (src dest : ℕ)
      → src < d.freecells_num
      → IsTidy d (increment_foundation (empty_freecell st src) dest)
  freecell_up-IsTidy src dest a =
      let emptied = empty_freecell st src in
      tidy d st (increment_foundation emptied dest) t
        (λ suit.
          omega
            (arith, in_stacks_cong suit 0 d.stacks_num (increment_foundation emptied dest) st refl))
        (λ suit one. omega (
          arith,
          in_freecells_cong suit 0 d.freecells_num (increment_foundation emptied dest) emptied refl,
          in_freecells-put suit 0 d.freecells_num st src empty_card a,
          no_rank-empty suit one,
        ))

  pub canonize-IsTidy : IsTidy d (canonize d st)
  unfolding canonize in_stacks in_freecells
  canonize-IsTidy =
      tidy d st (canonize d st) t
        (λ suit.
          omega (arith, insertion_sort-tally stack_order (in_column suit 0) d.stacks_num st.stacks))
        (λ suit one.
          omega
            (arith, insertion_sort-tally card_order (is_card suit 0) d.freecells_num st.freecells))

  move_of_type-IsTidy :
      (type : MoveType) (src dest num : ℕ)
      → IsLegalOf type d st src dest num
      → IsAllowedOf type st src dest num
      → IsTidy d
          (apply_move d st none
            (record { type = type; src = src; dest = dest; num_cards_in_seq = num })).0
  unfolding apply_move
  move_of_type-IsTidy MoveType.stack_to_stack src dest num legal h =
      let pushed = push_seq st src dest num num 0 in
      let popped = pop_cards pushed src num in
      let same =
        (pop_cards-rest pushed src num).cells ∙ (push_seq-rest st src dest num num 0).cells in
      tidy d st popped t (λ suit. omega (arith, sequence-in_stacks suit d st src dest num legal))
        (λ suit one. omega (arith, in_freecells_cong suit 0 d.freecells_num popped st same))
  move_of_type-IsTidy MoveType.stack_to_freecell src dest num legal h =
      to_freecell-IsTidy src dest legal
  move_of_type-IsTidy MoveType.freecell_to_stack src dest num legal (full, h) =
      from_freecell-IsTidy src dest legal full
  move_of_type-IsTidy MoveType.freecell_to_freecell src dest num legal h =
      between_freecells-IsTidy src dest legal
  move_of_type-IsTidy MoveType.freecell_to_foundation src dest num (a, b, next) h =
      freecell_up-IsTidy src dest a
  move_of_type-IsTidy MoveType.stack_to_foundation src dest num (a, b, k, next) h =
      let popped = set_col st src (col_pop_top (st.stacks src)) in
      let end = increment_foundation popped dest in
      tidy d st end t
        (λ suit. omega (
          arith,
          in_stacks_cong suit 0 d.stacks_num end popped refl,
          popped-le suit d.stacks_num st src a,
        ))
        (λ suit one. omega (arith, in_freecells_cong suit 0 d.freecells_num end st refl))
  move_of_type-IsTidy MoveType.seq_to_foundation src dest num (a, b, k, run) h =
      tidy d st (seq_up st src dest 13) t (λ suit. seq_up-le suit d.stacks_num st src dest 13 a)
        (λ suit one. omega (
          arith,
          in_freecells_cong suit 0 d.freecells_num (seq_up st src dest 13) st
              (seq_up-freecells st src dest 13),
        ))
  move_of_type-IsTidy MoveType.canonize_move src dest num legal h = canonize-IsTidy
  move_of_type-IsTidy _ src dest num legal h = t

  pub apply_move-IsTidy :
      (m : Move) → IsLegal d st m → IsAllowed st m → IsTidy d (apply_move d st none m).0
  apply_move-IsTidy m legal h = move_of_type-IsTidy m.type m.src m.dest m.num_cards_in_seq legal h
