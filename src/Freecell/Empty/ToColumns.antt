-- ===== src/Freecell/Empty/ToColumns.antt =====
-- The loop that fills vacant columns.
use investigate_lack_of_pgo.Prelude.{
  ℕ, ◌+◌, ◌-◌, ◌≤◌, ◌<◌, ◌≡◌, ◌≢◌, refl, sym, ap, subst, arith, true, ◌==◌, ltb, ==_iff, Bool-cases,
  inl, inr, List, [], ◌∷◌, length,
}
use investigate_lack_of_pgo.State.{State, Dims, col_pop_top}
use investigate_lack_of_pgo.State.Changes.{length-col_pop_top}
use investigate_lack_of_pgo.Freecell.{Deriving, copy_stack, column_to_column}
use investigate_lack_of_pgo.Freecell.Loops.{
  find_from, count_from, find_from-FoundFrom, count_from-find, count_from-cong, Succeeds,
  Succeeds-map,
}
use investigate_lack_of_pgo.Freecell.Recorded.{Recorded, copy_stack-Recorded}
use investigate_lack_of_pgo.Freecell.Primitives.{column_to_column-Recorded}
use investigate_lack_of_pgo.Freecell.Empty.{
  EmptyTwoColsRet, to_column, to_columns, col_is_empty, next_put,
}
use investigate_lack_of_pgo.Freecell.Empty.Progress.{
  Ready, Progress, Progress-refl, Progress-trans, TakesTop, TakesTop-Progress, Progress-Ready,
  first_of-Ready,
}

-- All the cards are moved, and the vacant columns behind the last one filled are those from before,
-- less one for each card.
pub record Relocated (d : Dims) (parent : State) (x : Deriving) (put : ℕ) (cols : List ℕ)
    (out : Deriving × EmptyTwoColsRet) : Type 0 where
  pub recorded : Recorded d parent out.0
  pub progress : Progress x cols out.0 []
  pub vacant :
      count_from (col_is_empty out.0.st) (next_put out.1) (d.stacks_num - next_put out.1)
        + length cols
      ≡ count_from (col_is_empty x.st) put (d.stacks_num - put)

module _ (x : Deriving) (c dest : ℕ) (empty : col_is_empty x.st dest ≡ true)
    (deep : 1 < length (x.st.stacks c)) where
  apart : c ≢ dest
  apart e = ground (arith, subst (λ j. col_is_empty x.st j ≡ true) (sym e) empty, deep)

  moved : Deriving
  moved = column_to_column (copy_stack x dest) c dest

  moved-source : moved.st.stacks c ≡ col_pop_top (x.st.stacks c)
  unfolding moved column_to_column
  moved-source = ground (arith, apart)

  moved-others : (i : ℕ) → c ≢ i → dest ≢ i → moved.st.stacks i ≡ x.st.stacks i
  unfolding moved column_to_column
  moved-others i ne ne' = ground (arith, ne, ne')

  moved-TakesTop : TakesTop x c moved
  unfolding moved column_to_column
  moved-TakesTop = record {
    source = moved-source;
    others = λ i ne h.
        moved-others i ne (λ e. ground (arith, subst (λ j. col_is_empty x.st j ≡ true) e empty, h));
    full = λ i h. refl;
    same = refl;
    kept = λ i h. ground (arith, h);
  }

  moved-vacant : (i : ℕ) → dest < i → col_is_empty moved.st i ≡ col_is_empty x.st i
  moved-vacant i h = elim (Bool-cases (c == i)) [
    | inl e ↦
        subst (λ j. col_is_empty moved.st j ≡ col_is_empty x.st j) ((==_iff c i).0 e)
          (rw moved-source (ground (arith, length-col_pop_top (x.st.stacks c), deep)))
    | inr e ↦ ap (λ col. length col == 0) (moved-others i (ground (arith, e)) (ground (arith, h)))
  ]

-- With vacant columns for all the cards, filling these does not fail.
pub to_columns-Relocated :
    (d : Dims) (parent : State) (x : Deriving) (put : ℕ) (ret : EmptyTwoColsRet) (cols : List ℕ)
    → Recorded d parent x
    → Ready d x cols
    → next_put ret ≡ put
    → put ≤ d.stacks_num
    → length cols ≤ count_from (col_is_empty x.st) put (d.stacks_num - put)
    → Succeeds (Relocated d parent x put cols) (to_columns d x put ret cols)
unfolding to_columns moved
to_columns-Relocated d parent x put ret [] r q p h room = record {
  recorded = r;
  progress = Progress-refl x [];
  vacant = rw p (omega arith);
}
to_columns-Relocated d parent x put ret (c ∷ cols) r q p h room =
    let test = col_is_empty x.st in
    let dest = find_from test put (d.stacks_num - put) in
    let found = find_from-FoundFrom test put (d.stacks_num - put) in
    let counted = count_from-find test put (d.stacks_num - put) d.stacks_num (omega (arith, h)) in
    elim (Bool-cases (ltb dest d.stacks_num)) [
      | inl e ↦
          let lt : dest < d.stacks_num = ground (arith, e) in
          let empty = found.passes (omega (arith, h, lt)) in
          let (below, own, deep) = first_of-Ready d x c cols q in
          let y = moved x c dest empty deep in
          let step = TakesTop-Progress x y c cols (moved-TakesTop x c dest empty deep) in
          let r' =
            column_to_column-Recorded d parent (copy_stack x dest)
              (copy_stack-Recorded d parent x r dest) c dest
              (below, lt, (λ s. apart x c dest empty deep (sym s)), omega (arith, deep))
              (inl (ground (arith, empty))) (ground (arith, own)) (ground arith) in
          let later =
            count_from-cong (col_is_empty y.st) test (dest + 1) (d.stacks_num - (dest + 1))
              (λ i k l. moved-vacant x c dest empty deep i (omega (arith, k))) in
          let counted' = rw e at counted in
          let rest =
            to_columns-Relocated d parent y (dest + 1) (to_column dest) cols r'
              (Progress-Ready d x y c cols step q) refl (omega (arith, lt))
              (omega (arith, later, counted', room)) in
          let more : (out : Deriving × EmptyTwoColsRet)
              → Relocated d parent y (dest + 1) cols out
              → Relocated d parent x put (c ∷ cols) out =
            λ out l. record {
              recorded = l.recorded;
              progress = Progress-trans x y out.0 (c ∷ cols) cols [] step l.progress;
              vacant = omega (arith, l.vacant, later, counted');
            } in
          rw e (
            Succeeds-map (Relocated d parent y (dest + 1) cols)
              (Relocated d parent x put (c ∷ cols)) _ more rest)
      | inr e ↦ absurd (ground (arith, counted, e, room))
    ]
