-- ===== src/Freecell/Empty/ToFreecells.antt =====
-- The loop that fills the vacant freecells.
use investigate_lack_of_pgo.Prelude.{
  ℕ, ◌+◌, ◌-◌, ◌≤◌, ◌<◌, ◌≡◌, refl, ◌∙◌, sym, ap, subst, arith, true, ◌==◌, ltb, ==_iff, Bool-cases,
  inl, inr, List, [], ◌∷◌, length,
}
use investigate_lack_of_pgo.Card.{card_is_empty, empty_card}
use investigate_lack_of_pgo.State.{State, Dims}
use investigate_lack_of_pgo.State.Changes.{length-col_pop_top}
use investigate_lack_of_pgo.Freecell.{Deriving, freecell_is_empty, column_to_freecell}
use investigate_lack_of_pgo.Freecell.Loops.{
  find_from, count_from, find_from-FoundFrom, count_from-find, count_from-cong,
}
use investigate_lack_of_pgo.Freecell.Recorded.{Recorded}
use investigate_lack_of_pgo.Freecell.Primitives.{column_to_freecell-Recorded}
use investigate_lack_of_pgo.Freecell.Empty.{
  EmptyTwoColsRet, to_freecell, to_freecells, col_is_empty, next_put,
}
use investigate_lack_of_pgo.Freecell.Empty.Progress.{
  Ready, Progress, Progress-refl, Progress-trans, TakesTop, TakesTop-Progress, Progress-Ready,
  first_of-Ready,
}

-- A freecell without a valid card, from the index on, has the empty card.
abbrev pub CleanFrom : Dims → State → ℕ → Type 0
CleanFrom d st fc =
    (i : ℕ)
    → fc ≤ i
    → i < d.freecells_num
    → freecell_is_empty st i ≡ true
    → st.freecells i ≡ empty_card

-- The vacant freecells from the index on are filled as far as there are cards.
pub record Filled (d : Dims) (parent : State) (x : Deriving) (fc : ℕ) (cols : List ℕ)
    (out : Deriving × EmptyTwoColsRet × List ℕ) : Type 0 where
  pub recorded : Recorded d parent out.0
  pub progress : Progress x cols out.0 out.2
  pub ready : Ready d out.0 out.2
  pub vacant : (i : ℕ) → col_is_empty out.0.st i ≡ col_is_empty x.st i
  pub left :
      length out.2 ≡ length cols - count_from (freecell_is_empty x.st) fc (d.freecells_num - fc)
  pub no_column : next_put out.1 ≡ 0

module _ (x : Deriving) (c fc : ℕ) (free : freecell_is_empty x.st fc ≡ true) where
  column_to_freecell-TakesTop : TakesTop x c (column_to_freecell x c fc)
  column_to_freecell-TakesTop = record {
    source = ground arith;
    others = λ i ne h. ground (arith, ne);
    full = λ i h. elim (Bool-cases (fc == i)) [
      | inl e ↦ absurd (ground (arith, ap (freecell_is_empty x.st) ((==_iff fc i).0 e), free, h))
      | inr e ↦ ground (arith, e)
    ];
    same = refl;
    kept = λ i h. h;
  }

  column_to_freecell-vacant :
      1 < length (x.st.stacks c)
      → (i : ℕ) → col_is_empty (column_to_freecell x c fc).st i ≡ col_is_empty x.st i
  column_to_freecell-vacant h i = elim (Bool-cases (c == i)) [
    | inl e ↦
        let same : c ≡ i = ground (arith, e) in
        subst (λ j. col_is_empty (column_to_freecell x c fc).st j ≡ col_is_empty x.st j) same
          (ground (arith, length-col_pop_top (x.st.stacks c), h))
    | inr e ↦ ground (arith, e)
  ]

pub column_to_freecell-cell :
    (x : Deriving) (c fc i : ℕ)
    → fc < i
    → (column_to_freecell x c fc).st.freecells i ≡ x.st.freecells i
column_to_freecell-cell x c fc i h = ground (arith, h)

-- Filling freecells takes the cards, in order, as long as there are vacant freecells.
pub to_freecells-Filled :
    (d : Dims) (parent : State) (x : Deriving) (fc : ℕ) (ret : EmptyTwoColsRet) (cols : List ℕ)
    → Recorded d parent x
    → Ready d x cols
    → CleanFrom d x.st fc
    → fc ≤ d.freecells_num
    → next_put ret ≡ 0
    → Filled d parent x fc cols (to_freecells d x fc ret cols)
unfolding to_freecells
to_freecells-Filled d parent x fc ret [] r q clean h n = record {
  recorded = r;
  progress = Progress-refl x [];
  ready = q;
  vacant = λ i. refl;
  left = omega arith;
  no_column = n;
}
to_freecells-Filled d parent x fc ret (c ∷ cols) r q clean h n =
    let test = freecell_is_empty x.st in
    let dest = find_from test fc (d.freecells_num - fc) in
    let found = find_from-FoundFrom test fc (d.freecells_num - fc) in
    let counted =
      count_from-find test fc (d.freecells_num - fc) d.freecells_num (omega (arith, h)) in
    elim (Bool-cases (ltb dest d.freecells_num)) [
      | inl e ↦
          let lt : dest < d.freecells_num = ground (arith, e) in
          let free = found.passes (omega (arith, h, lt)) in
          let (below, own, deep) = first_of-Ready d x c cols q in
          let y = column_to_freecell x c dest in
          let step = TakesTop-Progress x y c cols (column_to_freecell-TakesTop x c dest free) in
          let rest =
            to_freecells-Filled d parent y (dest + 1) (to_freecell dest) cols
              (column_to_freecell-Recorded d parent x r c dest
                (below, lt, omega (arith, deep), clean dest found.from lt free) own)
              (Progress-Ready d x y c cols step q)
              (λ i k l f.
                let stays = column_to_freecell-cell x c dest i (omega (arith, k)) in
                stays ∙ clean i (omega (arith, k, found.from)) l (ap card_is_empty (sym stays) ∙ f))
              (omega (arith, lt)) refl in
          let later =
            count_from-cong (freecell_is_empty y.st) test (dest + 1) (d.freecells_num - (dest + 1))
              (λ i k l. ap card_is_empty (column_to_freecell-cell x c dest i (omega (arith, k)))) in
          rw e (record {
            recorded = rest.recorded;
            progress = Progress-trans x y _ (c ∷ cols) cols _ step rest.progress;
            ready = rest.ready;
            vacant = λ i. rest.vacant i ∙ column_to_freecell-vacant x c dest free deep i;
            left = omega (arith, rest.left, later, rw e at counted);
            no_column = rest.no_column;
          })
      | inr e ↦ rw e (record {
        recorded = r;
        progress = Progress-refl x (c ∷ cols);
        ready = q;
        vacant = λ i. refl;
        left = ground (arith, counted, e);
        no_column = n;
      })
    ]
