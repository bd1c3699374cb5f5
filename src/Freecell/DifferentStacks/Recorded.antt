-- ===== src/Freecell/DifferentStacks/Recorded.antt =====
-- The states that the test derives.
use investigate_lack_of_pgo.Prelude.{
  ℕ, zero, suc, ◌+◌, ◌-◌, ◌≤◌, ◌<◌, ◌≡◌, ◌≢◌, inl, inr, ◌∙◌, ap, arith, Bool, true, false, not,
  ◌&&◌, ◌==◌, leb, ltb, Bool-cases, both_true, Option, List, length,
}
use investigate_lack_of_pgo.Card.{card_rank}
use investigate_lack_of_pgo.State.{State, Dims, Column, col_get_card, col_top}
use investigate_lack_of_pgo.Freecell.{
  Deriving, Derived, is_parent_card, check_state_begin, copy_stack, move_sequence,
}
use investigate_lack_of_pgo.Freecell.Loops.{
  find_from-FoundFrom, append_lists-Yields, and_then-Yields, Succeeds, Yields, for_from-Yields,
  if-Yields,
}
use investigate_lack_of_pgo.Freecell.Recorded.{
  Recorded, RecordedItem, begin-Recorded, copy_stack-Recorded,
}
use investigate_lack_of_pgo.Freecell.Sequence.{IsSequence, move_sequence-Recorded}
use investigate_lack_of_pgo.Freecell.Sort.{sorted_derived-Yields}
use investigate_lack_of_pgo.Freecell.Positions.Placed.{OneDeck, IsOpen, card_at}
use investigate_lack_of_pgo.Freecell.Positions.Parents.{check_positions-Yields}
use investigate_lack_of_pgo.Freecell.Empty.{
  EmptyTwoColsRet, empty_two_cols, num_vacant_freecells, num_vacant_stacks,
}
use investigate_lack_of_pgo.Freecell.Empty.ToFreecells.{CleanFrom}
use investigate_lack_of_pgo.Freecell.Empty.Emptied.{Emptied, empty_two_cols-Emptied, two_cols}
use investigate_lack_of_pgo.Freecell.Empty.TwoCols.{
  two_cols-Ready, length-two_cols, occurs-two_cols, Cut, Progress-Cut, Cut-top,
}
use investigate_lack_of_pgo.Freecell.DifferentStacks.{
  seq_end_of, for_sequences, freecells_to_fill, freestacks_to_fill, all_relocated,
  max_sequence_after, sequence_to_stack, sequence_to_stacks, move_stack_cards_to_different_stacks,
}

-- The end of a sequence is in the column, and all up to it are in sequence.
pub record EndsSequence (col : Column) (c seq_end : ℕ) : Type 0 where
  pub from : c ≤ seq_end
  pub inside : seq_end < length col
  pub run : IsSequence col c seq_end

pub seq_end_of-EndsSequence :
    (col : Column) (c : ℕ) → c < length col → EndsSequence col c (seq_end_of col c)
unfolding seq_end_of
seq_end_of-EndsSequence col c h =
    let ends : ℕ → Bool =
      λ e. not (is_parent_card (col_get_card col (e + 1)) (col_get_card col e)) in
    let found = find_from-FoundFrom ends c (length col - 1 - c) in
    record {
      from = found.from;
      inside = omega (arith, found.below, h);
      run = λ j k l. ground (arith, found.first j k l);
    }

-- The loop over the sequences goes through to the column's top, whatever its body, and what holds
-- of all that the body gives for a sequence holds of all that the loop gives.
pub for_sequences-Yields :
    (P : Derived → Type 0) (fuel : ℕ) (col : Column) (c : ℕ) (body : ℕ → ℕ → Option (List Derived))
    → length col ≤ c + fuel
    → ((c seq_end : ℕ) → EndsSequence col c seq_end → Yields P (body c seq_end))
    → Yields P (for_sequences fuel col c body)
unfolding for_sequences
for_sequences-Yields P zero col c body h k =
    let over : ltb c (length col) ≡ false = ground (arith, h) in rw over tt
for_sequences-Yields P (suc fuel) col c body h k =
    let seq_end = seq_end_of col c in
    if-Yields P (ltb c (length col)) _ (λ lt.
      let ends = seq_end_of-EndsSequence col c (ground (arith, lt)) in
      append_lists-Yields P (body c seq_end) _ (k c seq_end ends)
        (for_sequences-Yields P fuel col (seq_end + 1) body (omega (arith, h, ends.from)) k))

-- When no card is left to relocate, there are slots enough.
pub all_relocated-fits :
    (d : Dims) (st : State) (num : ℕ)
    → all_relocated d st num ≡ true
    → num ≤ num_vacant_freecells d st + num_vacant_stacks d st
unfolding all_relocated freestacks_to_fill freecells_to_fill
all_relocated-fits d st num h = ground (arith, h)

-- The sequence is still there when the cards above it have gone.
pub Cut-IsSequence :
    (col col' : Column) (c seq_end : ℕ)
    → Cut col (length col - 1 - seq_end) col'
    → EndsSequence col c seq_end
    → IsSequence col' c seq_end
Cut-IsSequence col col' c seq_end cut ends j k l =
    let lower = cut.under j (omega (arith, l, ends.inside)) in
    let upper = cut.under (j + 1) (omega (arith, l, ends.inside)) in
    rw (lower, upper) (ends.run j k l)

-- Two columns that the new state made its own, one or both cut: the sequence that then ends at the
-- top of the one goes onto the other one's top card.
pub record Placing (d : Dims) (st : State) (src c seq_end ds dc : ℕ) : Type 0 where
  pub below : src < d.stacks_num
  pub ends : EndsSequence (st.stacks src) c seq_end
  pub bare : IsOpen d st ds dc
  pub apart : ds ≢ src
  pub fits : is_parent_card (card_at st src c) (card_at st ds dc) ≡ true

module _ (d : Dims) (st : State) (src c seq_end ds dc : ℕ)
    (q : Placing d st src c seq_end ds dc) where
  col_num : ℕ
  col_num = length (st.stacks src) - 1 - seq_end

  dest_num : ℕ
  dest_num = length (st.stacks ds) - dc - 1

  own_both : Deriving
  own_both = copy_stack (copy_stack (check_state_begin st) src) ds

  own_both-copied : (own_both.copied src ≡ true) × (own_both.copied ds ≡ true)
  unfolding own_both
  own_both-copied = (ground arith, ground arith)

  own_both-Succeeds :
      CleanFrom d st 0
      → all_relocated d st (dest_num + col_num) ≡ true
      → Succeeds
          (Emptied d st own_both (two_cols ds src dest_num col_num))
          (empty_two_cols d own_both ds src dest_num col_num)
  unfolding own_both col_num dest_num
  own_both-Succeeds clean fit =
      let x = copy_stack (check_state_begin st) src in
      empty_two_cols-Emptied d st own_both ds src dest_num col_num
        (copy_stack-Recorded d st x (copy_stack-Recorded d st _ (begin-Recorded d st) src) ds)
        (two_cols-Ready d own_both ds src dest_num col_num (λ one. q.apart)
          (λ one. (q.bare.0.0, own_both-copied.1, omega (arith, q.bare.0.1)))
          (λ one. (q.below, own_both-copied.0, omega (arith, q.ends.inside))))
        clean
        (omega (arith, length-two_cols ds src dest_num col_num, all_relocated-fits d st _ fit))

  moved-Recorded :
      (out : Deriving × EmptyTwoColsRet)
      → Emptied d st own_both (two_cols ds src dest_num col_num) out
      → Recorded d st (move_sequence out.0 ds src c seq_end)
  unfolding own_both col_num dest_num
  moved-Recorded out e =
      let cols = two_cols ds src dest_num col_num in
      let src_col = out.0.st.stacks src in
      let cut =
        Progress-Cut own_both out.0 cols src col_num e.progress
          (ground (arith, occurs-two_cols src ds src dest_num col_num, q.apart))
          (omega (arith, q.ends.inside)) in
      let cut' =
        Progress-Cut own_both out.0 cols ds dest_num e.progress
          (ground (arith, occurs-two_cols ds ds src dest_num col_num, q.apart))
          (omega (arith, q.bare.0.1)) in
      let top : col_top (out.0.st.stacks ds) ≡ card_at st ds dc =
        Cut-top (st.stacks ds) (out.0.st.stacks ds) dest_num cut' (omega (arith, q.bare.0.1))
        ∙ ap (col_get_card (st.stacks ds)) (omega (arith, q.bare.0.1)) in
      let first : col_get_card src_col c ≡ card_at st src c =
        cut.under c (omega (arith, q.ends.from, q.ends.inside)) in
      move_sequence-Recorded d st out.0 ds src c seq_end e.recorded (q.below, q.bare.0.0, q.apart)
        q.ends.from (omega (arith, cut.shorter, q.ends.inside))
        (Cut-IsSequence (st.stacks src) src_col c seq_end cut q.ends) (inr (rw (first, top) q.fits))
        (e.progress.kept src own_both-copied.0, e.progress.kept ds own_both-copied.1)

module _ (d : Dims) (st : State) (clean : CleanFrom d st 0) where
  sequence_to_stack-Yields :
      (src c seq_end ds dc : ℕ)
      → src < d.stacks_num
      → EndsSequence (st.stacks src) c seq_end
      → IsOpen d st ds dc
      → is_parent_card (card_at st src c) (card_at st ds dc) ≡ true
      → Yields (RecordedItem d st) (sequence_to_stack d st src c seq_end ds dc)
  unfolding sequence_to_stack own_both col_num dest_num
  sequence_to_stack-Yields src c seq_end ds dc h ends bare fits =
      let num = length (st.stacks ds) - dc - 1 + (length (st.stacks src) - 1 - seq_end) in
      let fit_both = all_relocated d st num in
      let short_enough = leb (seq_end - c + 1) (max_sequence_after d st num) in
      if-Yields (RecordedItem d st) (not (ds == src) && (fit_both && short_enough)) _ (λ guard.
        let (differ, more) = both_true (not (ds == src)) (fit_both && short_enough) guard in
        let (fit, short) = both_true fit_both short_enough more in
        let q : Placing d st src c seq_end ds dc = record {
          below = h;
          ends = ends;
          bare = bare;
          apart = ground (arith, differ);
          fits = fits;
        } in
        and_then-Yields (Emptied d st _ _) (RecordedItem d st) _ _
          (own_both-Succeeds d st src c seq_end ds dc q clean fit)
          (λ out e. (moved-Recorded d st src c seq_end ds dc q out e, tt)))

  -- The same of `fc_solve_sfs_move_stack_cards_to_different_stacks`, in columns of cards of one deck.
  pub different_stacks-Yields :
      OneDeck d st → Yields (RecordedItem d st) (move_stack_cards_to_different_stacks d st)
  unfolding move_stack_cards_to_different_stacks sequence_to_stacks
  different_stacks-Yields deck = sorted_derived-Yields (RecordedItem d st) _ (
      for_from-Yields (RecordedItem d st) 0 d.stacks_num _ (λ src h k.
        for_sequences-Yields (RecordedItem d st) (length (st.stacks src)) (st.stacks src) 0
          (sequence_to_stacks d st src) (omega arith)
          (λ c seq_end ends. elim (Bool-cases (card_rank (card_at st src c) == 13)) [
            | inl e ↦ rw e tt
            | inr e ↦ rw e (
                check_positions-Yields d st (RecordedItem d st) (card_at st src c)
                  (sequence_to_stack d st src c seq_end) deck
                  (λ ds dc bare fits.
                    sequence_to_stack-Yields src c seq_end ds dc (omega arith) ends bare fits))
          ])))
