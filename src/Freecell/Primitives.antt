-- ===== src/Freecell/Primitives.antt =====
-- Each single move that a test makes on the state it derives is recorded as it is made.
use investigate_lack_of_pgo.Prelude.{
  ℕ, ◌+◌, ◌-◌, ◌≡◌, ◌≢◌, refl, ◌∙◌, sym, ap, ap₂, fun_ext, arith, true, false, none, length, update,
}
use native.Mathlib.Nat.{add-zero}
use investigate_lack_of_pgo.Card.{card_is_empty}
use investigate_lack_of_pgo.State.{
  State, Dims, Column, col_get_card, col_top, col_pop_top, col_push_card, set_col,
}
use investigate_lack_of_pgo.Move.{MoveType, apply_move, push_seq, pop_cards}
use investigate_lack_of_pgo.Move.Single.{IsLegalOf}
use investigate_lack_of_pgo.Freecell.{
  Deriving, column_to_freecell, column_to_column, freecell_to_column, column_to_foundation,
  freecell_to_foundation,
}
use investigate_lack_of_pgo.Freecell.Recorded.{Recorded, MayPut, move-Recorded}

module _ (d : Dims) (parent : State) (x : Deriving) (r : Recorded d parent x) where
  pub column_to_freecell-Recorded :
      (src fc : ℕ)
      → IsLegalOf MoveType.stack_to_freecell d x.st src fc 1
      → x.copied src ≡ true
      → Recorded d parent (column_to_freecell x src fc)
  unfolding apply_move
  column_to_freecell-Recorded src fc legal own =
      move-Recorded d parent x r
        (record { type = MoveType.stack_to_freecell; src = src; dest = fc; num_cards_in_seq = 1 })
        (column_to_freecell x src fc) refl legal tt refl (rw (r.intact, own) refl)

  pub freecell_to_column-Recorded :
      (fc dest : ℕ)
      → IsLegalOf MoveType.freecell_to_stack d x.st fc dest 1
      → card_is_empty (x.st.freecells fc) ≡ false
      → MayPut (x.st.freecells fc) (x.st.stacks dest)
      → x.copied dest ≡ true
      → Recorded d parent (freecell_to_column x (x.st.freecells fc) fc dest)
  unfolding apply_move
  freecell_to_column-Recorded fc dest legal full fits own =
      move-Recorded d parent x r
        (record { type = MoveType.freecell_to_stack; src = fc; dest = dest; num_cards_in_seq = 1 })
        (freecell_to_column x (x.st.freecells fc) fc dest) refl legal (full, fits) refl
        (rw (r.intact, own) refl)

  pub column_to_foundation-Recorded :
      (src f : ℕ)
      → IsLegalOf MoveType.stack_to_foundation d x.st src f 1
      → x.copied src ≡ true
      → Recorded d parent (column_to_foundation x src f)
  unfolding apply_move
  column_to_foundation-Recorded src f legal own =
      move-Recorded d parent x r
        (record { type = MoveType.stack_to_foundation; src = src; dest = f; num_cards_in_seq = 1 })
        (column_to_foundation x src f) refl legal tt refl (rw (r.intact, own) refl)

  pub freecell_to_foundation-Recorded :
      (fc f : ℕ)
      → IsLegalOf MoveType.freecell_to_foundation d x.st fc f 1
      → Recorded d parent (freecell_to_foundation x fc f)
  unfolding apply_move
  freecell_to_foundation-Recorded fc f legal =
      move-Recorded d parent x r
        (record {
          type = MoveType.freecell_to_foundation;
          src = fc;
          dest = f;
          num_cards_in_seq = 1;
        })
        (freecell_to_foundation x fc f) refl legal tt refl r.intact

-- The writes to two columns can be made in either order.
set_col-swap :
    (st : State) (a b : ℕ) (x y : Column)
    → a ≢ b
    → set_col (set_col st a x) b y ≡ set_col (set_col st b y) a x
set_col-swap st a b x y ne = ap (λ s. record st { stacks = s }) (fun_ext (λ j. ground (arith, ne)))

-- Popped first and pushed then, or the other way round, as `fc_solve_apply_move` does it.
one_card-made :
    (d : Dims) (x : Deriving) (src dest : ℕ)
    → dest ≢ src
    → (column_to_column x src dest).st
      ≡ (apply_move d x.st none (record {
        type = MoveType.stack_to_stack;
        src = src;
        dest = dest;
        num_cards_in_seq = 1;
      })).0
unfolding column_to_column apply_move push_seq pop_cards
one_card-made d x src dest ne =
    let col = x.st.stacks src in
    let to = x.st.stacks dest in
    let card : col_get_card col (length col - 1 + 0) ≡ col_top col = rw add-zero refl in
    let kept : update x.st.stacks src (col_pop_top col) dest ≡ to = ground (arith, ne) in
    let given : update x.st.stacks dest (col_push_card to (col_get_card col (length col - 1 + 0)))
          src
        ≡ col =
      ground (arith, ne) in
    ap (λ c. set_col (set_col x.st src (col_pop_top col)) dest (col_push_card c (col_top col))) kept
    ∙ set_col-swap x.st src dest (col_pop_top col) (col_push_card to (col_top col))
        (λ e. ne (sym e))
    ∙ ap₂ (λ a c. set_col (set_col x.st dest (col_push_card to a)) src (col_pop_top c)) (sym card)
        (sym given)

module _ (d : Dims) (parent : State) (x : Deriving) (r : Recorded d parent x) where
  pub column_to_column-Recorded :
      (src dest : ℕ)
      → IsLegalOf MoveType.stack_to_stack d x.st src dest 1
      → MayPut (col_top (x.st.stacks src)) (x.st.stacks dest)
      → x.copied src ≡ true
      → x.copied dest ≡ true
      → Recorded d parent (column_to_column x src dest)
  unfolding column_to_column
  column_to_column-Recorded src dest (a, b, ne, k) fits own own' =
      move-Recorded d parent x r
        (record { type = MoveType.stack_to_stack; src = src; dest = dest; num_cards_in_seq = 1 })
        (column_to_column x src dest) refl (a, b, ne, k) (λ j h. absurd (omega arith), fits)
        (one_card-made d x src dest ne) (rw (r.intact, own, own') refl)
