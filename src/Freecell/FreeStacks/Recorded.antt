-- ===== src/Freecell/FreeStacks/Recorded.antt =====
-- The states that the test derives.
use investigate_lack_of_pgo.Prelude.{
  ℕ, zero, suc, ◌+◌, ◌-◌, ◌≤◌, ◌<◌, ◌≡◌, ◌≢◌, inl, inr, refl, ◌∙◌, sym, subst, arith, true, not,
  ◌&&◌, ◌==◌, ==_iff, leb, ltb, if◌then◌else◌, Bool-cases, both_true, length,
}
use investigate_lack_of_pgo.State.{State, Dims, Column}
use investigate_lack_of_pgo.Freecell.{Deriving, check_state_begin, copy_stack}
use investigate_lack_of_pgo.Freecell.Loops.{
  find_from, and_then, and_then-Yields, Yields, for_from-Yields, if-Yields, find_from-counted,
}
use investigate_lack_of_pgo.Freecell.Recorded.{RecordedItem, begin-Recorded, copy_stack-Recorded}
use investigate_lack_of_pgo.Freecell.Sequence.{move_sequence-Recorded}
use investigate_lack_of_pgo.Freecell.Empty.{
  EmptyTwoColsRet, next_put, empty_two_cols, col_is_empty, num_vacant_freecells, num_vacant_stacks,
}
use investigate_lack_of_pgo.Freecell.Empty.ToFreecells.{CleanFrom}
use investigate_lack_of_pgo.Freecell.Empty.Emptied.{Emptied, two_cols}
use investigate_lack_of_pgo.Freecell.Empty.TwoCols.{
  length-two_cols, occurs-two_cols, Cut, Progress-Cut,
}
use investigate_lack_of_pgo.Freecell.Covered.{cards_above-Succeeds}
use investigate_lack_of_pgo.Freecell.VacantRecorded.{vacant_column}
use investigate_lack_of_pgo.Freecell.DifferentStacks.{
  calc_max_sequence_move, freecells_to_fill, freestacks_to_fill, all_relocated,
}
use investigate_lack_of_pgo.Freecell.DifferentStacks.Recorded.{
  EndsSequence, for_sequences-Yields, Cut-IsSequence,
}
use investigate_lack_of_pgo.Freecell.FreeStacks.{
  lower_start, top_sequence, seq_start_of, to_vacant_column, covered_sequence,
  sequence_to_free_stack, move_sequences_to_free_stacks,
}

lower_start-zero : (max_len n c : ℕ) → max_len < n - c → lower_start max_len n c ≡ 0
unfolding lower_start
lower_start-zero max_len n zero h = refl
lower_start-zero max_len n (suc c) h =
    let over : ltb max_len (n - suc c) ≡ true = ground (arith, h) in
    rw over (lower_start-zero max_len n c (omega (arith, h)))

-- The loop that should cut a sequence to the cards that may move makes it longer instead: from a
-- height with more cards from there to the top than may move, it goes down to the bottom of the
-- column, and no sequence moves; from any other height it stays.
pub lower_start_lem :
    (max_len n c : ℕ) → c < n → lower_start max_len n c ≡ (if ltb max_len (n - c) then 0 else c)
unfolding lower_start
lower_start_lem max_len n zero h = ground arith
lower_start_lem max_len n (suc c) h = elim (Bool-cases (ltb max_len (n - suc c))) [
  | inl e ↦ rw e (lower_start-zero max_len n c (ground (arith, e)))
  | inr e ↦ rw e refl
]

-- the part of a sequence from a later start
later-EndsSequence :
    (col : Column) (c start seq_end : ℕ)
    → EndsSequence col c seq_end
    → c ≤ start
    → start ≤ seq_end
    → EndsSequence col start seq_end
later-EndsSequence col c start seq_end e h k = record {
  from = k;
  inside = e.inside;
  run = λ j q r. e.run j (omega (arith, h, q)) r;
}

module _ (d : Dims) (st : State) where
  top_sequence-Yields :
      (src c : ℕ)
      → src < d.stacks_num
      → 1 ≤ num_vacant_stacks d st
      → EndsSequence (st.stacks src) c (length (st.stacks src) - 1)
      → Yields (RecordedItem d st) (top_sequence d st src c)
  unfolding top_sequence
  top_sequence-Yields src c h vacant ends =
      let col = st.stacks src in
      let n = length col in
      let max_len =
        calc_max_sequence_move (num_vacant_freecells d st) (num_vacant_stacks d st - 1) in
      let start = lower_start max_len n c in
      let dest = find_from (col_is_empty st) 0 d.stacks_num in
      let (lt, empty) = vacant_column d st vacant in
      let x = copy_stack (check_state_begin st) dest in
      let inside = ends.inside in
      if-Yields (RecordedItem d st) (not (start == 0)) _ (λ moves.
        let same : start ≡ c =
          ground (arith, moves, lower_start_lem max_len n c (omega (arith, ends.from, inside))) in
        let differ : dest ≢ src =
          λ e. ground (arith, subst (λ i. col_is_empty st i ≡ true) e empty, inside) in
        let q =
          later-EndsSequence col c start (n - 1) ends (omega (arith, same))
            (omega (arith, same, ends.from)) in
        (
          move_sequence-Recorded d st (copy_stack x src) dest src start (n - 1)
              (copy_stack-Recorded d st x
                (copy_stack-Recorded d st (check_state_begin st) (begin-Recorded d st) dest) src)
              (h, lt, differ) q.from (omega (arith, inside)) q.run (inl (ground (arith, empty)))
              (ground arith, ground arith),
          tt,
        ))

  seq_start_of-bounds : (num c seq_end : ℕ) → c ≤ seq_start_of d st num c seq_end
  unfolding seq_start_of
  seq_start_of-bounds num c seq_end = ground arith

  -- What is known when a covered sequence moves.
  record Room (num : ℕ) : Type 0 where
    fills : freecells_to_fill d st num + freestacks_to_fill d st num ≡ num
    one_left : num + 1 ≤ num_vacant_freecells d st + num_vacant_stacks d st
    spare : (num - num_vacant_freecells d st) + 1 ≤ num_vacant_stacks d st

  guard-Room :
      (num : ℕ)
      → all_relocated d st num ≡ true
      → ltb 0 (num_vacant_stacks d st - freestacks_to_fill d st num) ≡ true
      → Room num
  unfolding all_relocated freecells_to_fill freestacks_to_fill
  guard-Room num h k = record {
    fills = ground (arith, h);
    one_left = ground (arith, h, k);
    spare = ground (arith, h, k);
  }

  vacant_column-Yields :
      (src start seq_end : ℕ) (out : Deriving × EmptyTwoColsRet)
      → src < d.stacks_num
      → EndsSequence (st.stacks src) start seq_end
      → Room (length (st.stacks src) - (seq_end + 1))
      → Emptied d st
          (copy_stack (check_state_begin st) src)
          (two_cols src 0 (length (st.stacks src) - (seq_end + 1)) 0)
          out
      → Yields (RecordedItem d st) (to_vacant_column d src start seq_end out)
  unfolding to_vacant_column
  vacant_column-Yields src start seq_end (y, ret) h ends room e =
      let col = st.stacks src in
      let above = length col - (seq_end + 1) in
      let x = copy_stack (check_state_begin st) src in
      let put = next_put ret in
      let test = col_is_empty y.st in
      let b = find_from test put (d.stacks_num - put) in
      let cols = two_cols src 0 above 0 in
      let inside = ends.inside in
      let cut =
        Progress-Cut x y cols src above e.progress
          (ground (arith, occurs-two_cols src src 0 above 0)) (omega (arith, inside)) in
      let (lt, empty) =
        find_from-counted test put d.stacks_num
          (omega (arith, e.vacant, length-two_cols src 0 above 0, room.spare)) in
      let differ : b ≢ src =
        λ q. ground (arith, subst (λ i. test i ≡ true) q empty, cut.shorter, inside) in
      let above' : above ≡ length col - 1 - seq_end = omega arith in
      let cut' = subst (λ n. Cut col n (y.st.stacks src)) above' cut in
      (
        move_sequence-Recorded d st (copy_stack y b) b src start seq_end
            (copy_stack-Recorded d st y e.recorded b) (h, lt, differ) ends.from
            (omega (arith, cut.shorter, inside))
            (Cut-IsSequence col (y.st.stacks src) start seq_end cut' ends)
            (inl (ground (arith, empty)))
            (ground (arith, e.progress.kept src (ground arith)), ground arith),
        tt,
      )

  covered_sequence-Yields :
      (src c seq_end : ℕ)
      → CleanFrom d st 0
      → src < d.stacks_num
      → EndsSequence (st.stacks src) c seq_end
      → Yields (RecordedItem d st) (covered_sequence d st src c seq_end)
  unfolding covered_sequence
  covered_sequence-Yields src c seq_end clean h ends =
      let col = st.stacks src in
      let num = length col - seq_end - 1 in
      let above = length col - (seq_end + 1) in
      let start = seq_start_of d st num c seq_end in
      let x = copy_stack (check_state_begin st) src in
      let fit = all_relocated d st num in
      let spare = ltb 0 (num_vacant_stacks d st - freestacks_to_fill d st num) in
      if-Yields (RecordedItem d st) (fit && (spare && leb start seq_end)) _ (λ guard.
        let (fits, more) = both_true fit (spare && leb start seq_end) guard in
        let (spares, starts) = both_true spare (leb start seq_end) more in
        let same : num ≡ above = omega arith in
        let room : Room num = guard-Room num fits spares in
        let room' = subst Room same room in
        let filled : above ≡ freecells_to_fill d st num + freestacks_to_fill d st num =
          sym (room.fills ∙ same) in
        let q =
          later-EndsSequence col c start seq_end ends (seq_start_of-bounds num c seq_end)
            (ground (arith, starts)) in
        subst
          (λ n.
            Yields (RecordedItem d st)
              (and_then (empty_two_cols d x src 0 n 0) (to_vacant_column d src start seq_end)))
          filled
          (and_then-Yields (Emptied d st x (two_cols src 0 above 0)) (RecordedItem d st) _ _
            (cards_above-Succeeds d st clean src seq_end h ends.inside
              (omega (arith, room'.one_left)))
            (λ out e. vacant_column-Yields src start seq_end out h q room' e)))

  -- The same of `fc_solve_sfs_move_sequences_to_free_stacks`, where freecells without a valid card
  -- are empty; no assertion fails, and the columns sought for are found.
  pub sequences_to_free_stacks-Yields :
      CleanFrom d st 0 → Yields (RecordedItem d st) (move_sequences_to_free_stacks d st)
  unfolding move_sequences_to_free_stacks sequence_to_free_stack
  sequences_to_free_stacks-Yields clean = elim (Bool-cases (num_vacant_stacks d st == 0)) [
    | inl e ↦ rw e tt
    | inr e ↦
        let vacant : 1 ≤ num_vacant_stacks d st = ground (arith, e) in
        rw e (
          for_from-Yields (RecordedItem d st) 0 d.stacks_num _ (λ src h k.
            for_sequences-Yields (RecordedItem d st) (length (st.stacks src)) (st.stacks src) 0
              (sequence_to_free_stack d st src) (omega arith)
              (λ c seq_end ends. elim (Bool-cases (seq_end == length (st.stacks src) - 1)) [
                | inl top ↦
                    let at = (==_iff seq_end (length (st.stacks src) - 1)).0 top in
                    rw top (
                      top_sequence-Yields src c (omega arith) vacant
                        (subst (EndsSequence (st.stacks src) c) at ends))
                | inr covered ↦
                    rw covered (covered_sequence-Yields src c seq_end clean (omega arith) ends)
              ])))
  ]
