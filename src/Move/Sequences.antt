-- ===== src/Move/Sequences.antt =====
-- The loops of fc_solve_apply_move: what they do to the count of a card.
use investigate_lack_of_pgo.Prelude.{
  ℕ, zero, suc, ◌+◌, ◌-◌, ◌≤◌, ◌<◌, ◌≡◌, ◌≢◌, refl, ◌∙◌, ap, arith, sum_below, sum_below_suc,
  sum_below_cong, length,
}
use native.Mathlib.Nat.{add-zero}
use investigate_lack_of_pgo.State.{Column, State, col_pop_top, col_get_card, col_push_card, set_col}
use investigate_lack_of_pgo.State.Count.{is_card, in_stacks}
use investigate_lack_of_pgo.State.Changes.{
  length-col_pop_top, get-col_pop_top, in_column-pop, in_column-push, in_stacks-set_col,
}
use investigate_lack_of_pgo.Move.{push_seq, pop_cards}

-- The loops leave the rest of the state alone.
pub record SameCellsAndFoundations (s t : State) : Type 0 where
  pub cells : s.freecells ≡ t.freecells
  pub foundations : s.foundations ≡ t.foundations

pub push_seq-rest :
    (st : State) (src dest num rounds i : ℕ)
    → SameCellsAndFoundations (push_seq st src dest num rounds i) st
unfolding push_seq
push_seq-rest st src dest num zero i = record { cells = refl; foundations = refl }
push_seq-rest st src dest num (suc rounds) i =
    let card = col_get_card (st.stacks src) (length (st.stacks src) - num + i) in
    let st' = set_col st dest (col_push_card (st.stacks dest) card) in
    let rest = push_seq-rest st' src dest num rounds (i + 1) in
    record { cells = rest.cells; foundations = rest.foundations }

pub pop_cards-rest :
    (st : State) (src rounds : ℕ) → SameCellsAndFoundations (pop_cards st src rounds) st
unfolding pop_cards
pop_cards-rest st src zero = record { cells = refl; foundations = refl }
pop_cards-rest st src (suc rounds) =
    let rest = pop_cards-rest (set_col st src (col_pop_top (st.stacks src))) src rounds in
    record { cells = rest.cells; foundations = rest.foundations }

-- Pushing does not touch the source column.
pub push_seq-src :
    (st : State) (src dest num rounds i : ℕ)
    → dest ≢ src
    → (push_seq st src dest num rounds i).stacks src ≡ st.stacks src
unfolding push_seq
push_seq-src st src dest num zero i ne = refl
push_seq-src st src dest num (suc rounds) i ne =
    let card = col_get_card (st.stacks src) (length (st.stacks src) - num + i) in
    let st' = set_col st dest (col_push_card (st.stacks dest) card) in
    push_seq-src st' src dest num rounds (i + 1) ne ∙ ground arith

module _ (suit rank n : ℕ) where
  -- the top `num` cards of a column, counted
  abbrev pub top_card : Column → ℕ → ℕ → ℕ
  top_card col num j = is_card suit rank (col_get_card col (length col - num + j))

  pub push_seq-in_stacks :
      (st : State) (src dest num rounds i : ℕ) (col : Column)
      → dest ≢ src
      → dest < n
      → st.stacks src ≡ col
      → in_stacks suit rank n (push_seq st src dest num rounds i) + sum_below i (top_card col num)
        ≡ in_stacks suit rank n st + sum_below (i + rounds) (top_card col num)
  unfolding push_seq
  push_seq-in_stacks st src dest num zero i col ne h e = rw add-zero
  push_seq-in_stacks st src dest num (suc rounds) i col ne h e =
      let card = col_get_card (st.stacks src) (length (st.stacks src) - num + i) in
      let st' = set_col st dest (col_push_card (st.stacks dest) card) in
      let kept : st'.stacks src ≡ col = ground arith in
      let same_card : is_card suit rank card ≡ top_card col num i =
        ap (λ c. is_card suit rank (col_get_card c (length c - num + i))) e in
      let count : i + 1 + rounds ≡ i + suc rounds = omega arith in
      let ih = rw count at (push_seq-in_stacks st' src dest num rounds (i + 1) col ne h kept) in
      omega (
        arith,
        ih,
        sum_below_suc i (top_card col num),
        in_stacks-set_col suit rank n st dest (col_push_card (st.stacks dest) card) h,
        in_column-push suit rank (st.stacks dest) card,
        same_card,
      )

  -- The count that popping a column takes away.
  pub pop_cards-in_stacks :
      (st : State) (src rounds : ℕ)
      → src < n
      → rounds ≤ length (st.stacks src)
      → in_stacks suit rank n (pop_cards st src rounds)
          + sum_below rounds (top_card (st.stacks src) rounds)
        ≡ in_stacks suit rank n st
  unfolding pop_cards sum_below
  pop_cards-in_stacks st src zero h k = omega arith
  pop_cards-in_stacks st src (suc rounds) h k =
      let col = st.stacks src in
      let st' = set_col st src (col_pop_top col) in
      let popped : st'.stacks src ≡ col_pop_top col = ground arith in
      let shorter = length-col_pop_top col in
      let ih =
        rw popped at (pop_cards-in_stacks st' src rounds h (rw popped (omega (arith, shorter)))) in
      let top : length col - suc rounds + rounds ≡ length col - 1 = omega arith in
      let terms =
        sum_below_cong rounds (top_card (col_pop_top col) rounds) (top_card col (suc rounds))
          (λ j p.
            let at : length (col_pop_top col) - rounds + j ≡ length col - suc rounds + j =
              omega (arith, shorter) in
            ap (is_card suit rank) (
              ap (col_get_card (col_pop_top col)) at
              ∙ get-col_pop_top col (length col - suc rounds + j) (omega arith))) in
      rw top (
        omega (
          arith,
          ih,
          terms,
          in_stacks-set_col suit rank n st src (col_pop_top col) h,
          in_column-pop suit rank col (omega arith),
        ))
