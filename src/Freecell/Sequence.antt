-- ===== src/Freecell/Sequence.antt =====
-- fc_solve_move_sequence_function makes the move that it pushes, where the sequence ends at the top
-- of its column.
use investigate_lack_of_pgo.Prelude.{
  ℕ, zero, suc, ◌+◌, ◌-◌, ◌≤◌, ◌<◌, ◌≡◌, ◌≢◌, refl, ◌∙◌, sym, ap, subst, arith, true, length,
}
use investigate_lack_of_pgo.State.{State, Dims, Column, col_get_card, col_push_card, set_col}
use investigate_lack_of_pgo.Move.{MoveType, apply_move, push_seq, pop_cards}
use investigate_lack_of_pgo.Freecell.{Deriving, is_parent_card, push_from, move_sequence}
use investigate_lack_of_pgo.Freecell.Recorded.{Recorded, MayPut, move-Recorded}

push_from-push_seq :
    (st : State) (dest src num rounds i k : ℕ)
    → dest ≢ src
    → length (st.stacks src) - num + i ≡ k
    → push_from st dest src k rounds ≡ push_seq st src dest num rounds i
unfolding push_from push_seq
push_from-push_seq st dest src num zero i k ne e = refl
push_from-push_seq st dest src num (suc rounds) i k ne e =
    let col = st.stacks src in
    let to = st.stacks dest in
    let next : ℕ → State = λ c. set_col st dest (col_push_card to (col_get_card col c)) in
    let stays : (next k).stacks src ≡ col = ground (arith, ne) in
    push_from-push_seq (set_col st dest (col_push_card to (col_get_card col k))) dest src num rounds
      (i + 1) (k + 1) ne (rw stays (omega (arith, e)))
    ∙ ap (λ c. push_seq (next c) src dest num rounds (i + 1)) (sym e)

-- The cards from the one height up to the other one are each on its parent.
abbrev pub IsSequence : Column → ℕ → ℕ → Type 0
IsSequence col start end =
    (j : ℕ)
    → start ≤ j
    → j < end
    → is_parent_card (col_get_card col (j + 1)) (col_get_card col j) ≡ true

pub move_sequence-Recorded :
    (d : Dims) (parent : State) (x : Deriving) (dest src start end : ℕ)
    → Recorded d parent x
    → (src < d.stacks_num) × (dest < d.stacks_num) × (dest ≢ src)
    → start ≤ end
    → length (x.st.stacks src) ≡ end + 1
    → IsSequence (x.st.stacks src) start end
    → MayPut (col_get_card (x.st.stacks src) start) (x.st.stacks dest)
    → (x.copied src ≡ true) × (x.copied dest ≡ true)
    → Recorded d parent (move_sequence x dest src start end)
unfolding move_sequence apply_move
move_sequence-Recorded d parent x dest src start end r (a, b, ne) h top run fits (own, own') =
    let num = end + 1 - start in
    let col = x.st.stacks src in
    let first : length col - num ≡ start = omega (arith, top, h) in
    move-Recorded d parent x r
      (record { type = MoveType.stack_to_stack; src = src; dest = dest; num_cards_in_seq = num })
      (move_sequence x dest src start end) refl (a, b, ne, omega (arith, top))
      (
        λ j k.
            subst
              (λ i.
                is_parent_card (col_get_card col (i + (j + 1))) (col_get_card col (i + j)) ≡ true)
              (sym first)
              (subst
                (λ i. is_parent_card (col_get_card col i) (col_get_card col (start + j)) ≡ true)
                (omega arith) (run (start + j) (omega arith) (omega (arith, k)))),
        subst (λ i. MayPut (col_get_card col i) (x.st.stacks dest)) (sym first) fits,
      )
      (ap (λ s. pop_cards s src num)
        (push_from-push_seq x.st dest src num num 0 start ne (omega (arith, first))))
      (rw (r.intact, own, own') refl)
