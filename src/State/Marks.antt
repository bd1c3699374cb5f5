-- ===== src/State/Marks.antt =====
-- The table of fc_solve_check_state_validity counts the cards of the state.
use investigate_lack_of_pgo.Prelude.{
  ℕ, zero, suc, ◌+◌, ◌*◌, ◌%◌, ◌≤◌, ◌<◌, ◌≡◌, false, ◌==◌, [], ◌∷◌, Option, some, none, All, arith,
  Bool-cases, inl, inr,
}
use native.Mathlib.Nat.{add-zero}
use native.Mathlib.Numerals.{add-one}
use investigate_lack_of_pgo.Card.{Card, card_rank, card_suit, card_is_empty}
use investigate_lack_of_pgo.State.{Column, State, Dims}
use investigate_lack_of_pgo.State.Validity.{
  Table, bump, mark_up_to, mark_foundations, mark_freecells, mark_column, mark_columns,
  marked_cells,
}
use investigate_lack_of_pgo.State.Count.{
  in_column, in_foundation, in_stacks, in_freecells, in_foundations,
}

-- no empty slot in a column
abbrev pub IsFilled : Column → Type 0
IsFilled = All (λ card. card_is_empty card ≡ false)

mark_up_to_lem :
    (t : Table) (d n suit rank : ℕ)
    → 1 ≤ rank
    → mark_up_to t (d % 4) n suit rank ≡ t suit rank + in_foundation suit rank d n
unfolding mark_up_to in_foundation
mark_up_to_lem t d zero suit rank h = ground arith
mark_up_to_lem t d (suc n) suit rank h = ground (arith, mark_up_to_lem t d n suit rank h)

mark_foundations_lem :
    (t : Table) (st : State) (n suit rank : ℕ)
    → 1 ≤ rank
    → mark_foundations t st n suit rank ≡ t suit rank + in_foundations suit rank n st
unfolding mark_foundations in_foundations
mark_foundations_lem t st zero suit rank h = omega arith
mark_foundations_lem t st (suc n) suit rank h = omega (
  arith,
  mark_up_to_lem (mark_foundations t st n) n (st.foundations n) suit rank h,
  mark_foundations_lem t st n suit rank h,
)

mark_freecells_lem :
    (t : Table) (st : State) (n suit rank : ℕ)
    → 1 ≤ rank
    → mark_freecells t st n suit rank ≡ t suit rank + in_freecells suit rank n st
unfolding mark_freecells in_freecells
mark_freecells_lem t st zero suit rank h = omega arith
mark_freecells_lem t st (suc n) suit rank h = ground (arith, mark_freecells_lem t st n suit rank h)

pub marked_cells_lem :
    (st : State) (d : Dims) (suit rank : ℕ)
    → 1 ≤ rank
    → marked_cells st d suit rank
      ≡ in_foundations suit rank (d.decks_num * 4) st + in_freecells suit rank d.freecells_num st
unfolding marked_cells
marked_cells_lem st d suit rank h =
    let zeros : Table = λ s r. 0 in
    omega (
      arith,
      mark_foundations_lem zeros st (d.decks_num * 4) suit rank h,
      mark_freecells_lem (mark_foundations zeros st (d.decks_num * 4)) st d.freecells_num suit rank
          h,
    )

-- What marking a column comes to.
data ColumnMarked (t : Table) (col : Column) : Option Table → Type 0 where
  marked :
      {t' : Table}
      → IsFilled col
      → ((suit rank : ℕ) → t' suit rank ≡ t suit rank + in_column suit rank col)
      → ColumnMarked t col (some t')
  has_empty : ¬ IsFilled col → ColumnMarked t col none

cons-ColumnMarked :
    (t : Table) (card : Card) (col : Column) {o : Option Table}
    → card_is_empty card ≡ false
    → ColumnMarked (bump t (card_suit card) (card_rank card)) col o
    → ColumnMarked t (card ∷ col) o
unfolding bump in_column
cons-ColumnMarked t card col e (marked filled counts) =
    marked (e, filled) (λ suit rank. ground (arith, counts suit rank))
cons-ColumnMarked t card col e (has_empty not_filled) = has_empty (λ f. not_filled f.1)

mark_column_lem : (t : Table) (col : Column) → ColumnMarked t col (mark_column t col)
unfolding mark_column in_column
mark_column_lem t [] = marked tt (λ suit rank. omega arith)
mark_column_lem t (card ∷ col) = elim (Bool-cases (card_is_empty card)) [
  | inl e ↦ rw (e, mark_column) (has_empty (λ f. ground (arith, f.0)))
  | inr e ↦
      rw (e, mark_column)
        (cons-ColumnMarked t card col e
          (mark_column_lem (bump t (card_suit card) (card_rank card)) col))
]

-- What marking the columns from `s` on comes to.
pub data ColumnsMarked (t : Table) (st : State) (s n : ℕ) : Option Table → Type 0 where
  all_marked :
      {t' : Table}
      → ((i : ℕ) → s ≤ i → i < s + n → IsFilled (st.stacks i))
      → ((suit rank : ℕ)
          → t' suit rank + in_stacks suit rank s st ≡ t suit rank + in_stacks suit rank (s + n) st)
      → ColumnsMarked t st s n (some t')
  one_has_empty :
      (i : ℕ) → s ≤ i → i < s + n → ¬ IsFilled (st.stacks i) → ColumnsMarked t st s n none

in_stacks_suc :
    (suit rank s : ℕ) (st : State)
    → in_stacks suit rank (s + 1) st ≡ in_stacks suit rank s st + in_column suit rank (st.stacks s)
unfolding in_stacks
in_stacks_suc suit rank s st = rw add-one

step-ColumnsMarked :
    (t t' : Table) (st : State) (s n : ℕ) {o : Option Table}
    → IsFilled (st.stacks s)
    → ((suit rank : ℕ) → t' suit rank ≡ t suit rank + in_column suit rank (st.stacks s))
    → ColumnsMarked t' st (s + 1) n o
    → ColumnsMarked t st s (suc n) o
step-ColumnsMarked t t' st s n filled counts (all_marked all rest) =
    all_marked
      (λ i h k. elim (Bool-cases (i == s)) [
        | inl e ↦ let e' : i ≡ s = ground arith in rw e' filled
        | inr e ↦ all i (ground arith) (omega arith)
      ])
      (λ suit rank.
        let same : s + 1 + n ≡ s + suc n = omega arith in
        omega (arith, rw same at (rest suit rank), counts suit rank, in_stacks_suc suit rank s st))
step-ColumnsMarked t t' st s n filled counts (one_has_empty i h k e) =
    one_has_empty i (omega arith) (omega arith) e

after_column :
    (t : Table) (st : State) (s n : ℕ)
    → ((t' : Table) → ColumnsMarked t' st (s + 1) n (mark_columns t' st (s + 1) n))
    → (o : Option Table) → ColumnMarked t (st.stacks s) o
    → ColumnsMarked t st s (suc n) (elim o [ none ↦ none | some t' ↦ mark_columns t' st (s + 1) n ])
after_column t st s n rest (some t') (marked filled counts) =
    step-ColumnsMarked t t' st s n filled counts (rest t')
after_column t st s n rest none (has_empty e) = one_has_empty s (omega arith) (omega arith) e

pub mark_columns_lem :
    (t : Table) (st : State) (s n : ℕ) → ColumnsMarked t st s n (mark_columns t st s n)
unfolding mark_columns
mark_columns_lem t st s zero = all_marked (λ i h k. absurd (omega arith)) (λ suit rank. rw add-zero)
mark_columns_lem t st s (suc n) =
    after_column t st s n (λ t'. mark_columns_lem t' st (s + 1) n) (mark_column t (st.stacks s))
      (mark_column_lem t (st.stacks s))
