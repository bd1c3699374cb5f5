-- ===== src/Freecell/Empty/Landed.antt =====
-- Where empty_two_cols_from_new_state says that the last card went, when all come from one column.
use investigate_lack_of_pgo.Prelude.{
  ℕ, zero, suc, ◌+◌, ◌-◌, ◌≤◌, ◌<◌, ◌≡◌, ◌≢◌, refl, ◌∙◌, sym, ap, subst, arith, Bool, true, false,
  ◌==◌, ==_iff, ltb, Bool-cases, inl, inr, Option, some, none, List, [], ◌∷◌, append-nil, length,
}
use investigate_lack_of_pgo.Card.{Card, card_is_empty}
use investigate_lack_of_pgo.State.{Dims, Column, col_get_card, col_pop_top, col_top}
use investigate_lack_of_pgo.State.Changes.{length-col_pop_top, get-col_pop_top}
use investigate_lack_of_pgo.Freecell.{
  Deriving, freecell_is_empty, copy_stack, column_to_freecell, column_to_column,
}
use investigate_lack_of_pgo.Freecell.Loops.{
  find_from, count_from, count_from-cong, find_from-FoundFrom,
}
use investigate_lack_of_pgo.Freecell.Empty.{
  EmptyTwoColsRet, nowhere, to_freecell, to_column, times, col_is_empty, num_vacant_freecells,
  to_freecells, to_columns, empty_two_cols,
}
use investigate_lack_of_pgo.Freecell.Empty.ToFreecells.{CleanFrom}

-- The card is the one of the freecell, or alone in a column that is the new state's own and another one
-- than `s`.
abbrev pub Landed : Dims → Deriving → ℕ → Card → EmptyTwoColsRet → Type 0
Landed d x s card nowhere = ⊥
Landed d x s card (to_freecell i) = (i < d.freecells_num) × (x.st.freecells i ≡ card)
Landed d x s card (to_column i) =
    (i < d.stacks_num) × (i ≢ s) × (x.copied i ≡ true) × (x.st.stacks i ≡ card ∷ [])

-- With `n` cards left to take from column `s`, down to the card at height `h`. Of `total` vacant
-- freecells, at most one is gone for each of the `num` cards that is taken.
pub record Taking (d : Dims) (s h : ℕ) (card : Card) (total num : ℕ) (x : Deriving) (n : ℕ)
    (ret : EmptyTwoColsRet) : Type 0 where
  pub height : length (x.st.stacks s) ≡ h + n
  pub above : 1 ≤ h
  pub lowest : 1 ≤ n → col_get_card (x.st.stacks s) h ≡ card
  pub valid :
      (j : ℕ) → j < length (x.st.stacks s) → card_is_empty (col_get_card (x.st.stacks s) j) ≡ false
  pub clean : CleanFrom d x.st 0
  pub spare : total + n ≤ num_vacant_freecells d x.st + num
  pub landed : n ≡ 0 → Landed d x s card ret

-- Tests that differ at one index at most count up to one more.
count_from-but :
    (test test' : ℕ → Bool) (k i rounds : ℕ)
    → ((j : ℕ) → j ≢ k → test j ≡ test' j)
    → count_from test i rounds ≤ count_from test' i rounds + 1
unfolding count_from
count_from-but test test' k i zero h = omega arith
count_from-but test test' k i (suc rounds) h = elim (Bool-cases (i == k)) [
  | inl e ↦
      let rest =
        count_from-cong test test' (i + 1) rounds (λ j a b. h j (λ q. ground (arith, e, a, q))) in
      ground (arith, rest)
  | inr e ↦
      let rest = count_from-but test test' k (i + 1) rounds h in
      let here = h i (λ q. ground (arith, e, q)) in ground (arith, rest, here)
]

no_cards : (col : Column) → (length col == 0) ≡ true → col ≡ []
no_cards [] e = refl
no_cards (c ∷ col) e = absurd (ground (arith, e))

module _ (d : Dims) (s h : ℕ) (card : Card) (total num : ℕ) (x : Deriving) (n : ℕ)
    (ret : EmptyTwoColsRet) (t : Taking d s h card total num x (suc n) ret) where
  top_card : col_top (x.st.stacks s) ≡ col_get_card (x.st.stacks s) (h + n)
  top_card = ap (col_get_card (x.st.stacks s)) (omega (arith, t.height))

  top-valid : card_is_empty (col_top (x.st.stacks s)) ≡ false
  top-valid = t.valid (length (x.st.stacks s) - 1) (omega (arith, t.height))

  top-last : n ≡ 0 → col_top (x.st.stacks s) ≡ card
  top-last e =
      top_card ∙ ap (col_get_card (x.st.stacks s)) (omega (arith, e)) ∙ t.lowest (omega arith)

  popped-valid :
      (j : ℕ)
      → j < length (col_pop_top (x.st.stacks s))
      → card_is_empty (col_get_card (col_pop_top (x.st.stacks s)) j) ≡ false
  popped-valid j k =
      let len = length-col_pop_top (x.st.stacks s) in
      ap card_is_empty (get-col_pop_top (x.st.stacks s) j (omega (arith, k, len)))
      ∙ t.valid j (omega (arith, k, len))

  -- what is left of the column is the same, wherever its card goes
  popped-Taking :
      (y : Deriving) (ret' : EmptyTwoColsRet)
      → y.st.stacks s ≡ col_pop_top (x.st.stacks s)
      → CleanFrom d y.st 0
      → num_vacant_freecells d x.st ≤ num_vacant_freecells d y.st + 1
      → (n ≡ 0 → Landed d y s card ret')
      → Taking d s h card total num y n ret'
  popped-Taking y ret' popped clean vacant landed =
      let col = x.st.stacks s in
      let len = length-col_pop_top col in
      record {
        height = ap length popped ∙ omega (arith, len, t.height);
        above = t.above;
        lowest = λ k.
            ap (λ c. col_get_card c h) popped
            ∙ get-col_pop_top col h (omega (arith, t.height, k))
            ∙ t.lowest (omega arith);
        valid =
            subst (λ c. (j : ℕ) → j < length c → card_is_empty (col_get_card c j) ≡ false)
              (sym popped) popped-valid;
        clean = clean;
        spare = omega (arith, t.spare, vacant);
        landed = landed;
      }

  freecell-Taking :
      (dest : ℕ)
      → dest < d.freecells_num
      → Taking d s h card total num (column_to_freecell x s dest) n (to_freecell dest)
  freecell-Taking dest lt =
      let y = column_to_freecell x s dest in
      let there : y.st.freecells dest ≡ col_top (x.st.stacks s) = ground arith in
      let others : (i : ℕ) → i ≢ dest → y.st.freecells i ≡ x.st.freecells i =
        λ i ne. ground (arith, ne) in
      popped-Taking y (to_freecell dest) (ground arith)
        (λ i a b f. elim (Bool-cases (dest == i)) [
          | inl e ↦
              let full : freecell_is_empty y.st i ≡ false =
                subst (λ k. freecell_is_empty y.st k ≡ false) ((==_iff dest i).0 e)
                  (ap card_is_empty there ∙ top-valid) in
              absurd (ground (arith, full, f))
          | inr e ↦
              let stays = others i (λ q. ground (arith, e, q)) in
              stays ∙ t.clean i a b (ap card_is_empty (sym stays) ∙ f)
        ])
        (count_from-but (freecell_is_empty x.st) (freecell_is_empty y.st) dest 0 d.freecells_num
          (λ j ne. ap card_is_empty (sym (others j ne))))
        (λ e. (lt, there ∙ top-last e))

  column-Taking :
      (dest : ℕ)
      → dest < d.stacks_num
      → col_is_empty x.st dest ≡ true
      → Taking d s h card total num (column_to_column (copy_stack x dest) s dest) n (to_column dest)
  unfolding column_to_column
  column-Taking dest lt empty =
      let y = column_to_column (copy_stack x dest) s dest in
      let apart : dest ≢ s =
        λ e. ground (arith, subst (λ k. col_is_empty x.st k ≡ true) e empty, t.height) in
      let bare : x.st.stacks dest ≡ [] = no_cards (x.st.stacks dest) empty in
      let same : (dest == dest) ≡ true = (==_iff dest dest).1 refl in
      let other : (s == dest) ≡ false = ground (arith, apart) in
      popped-Taking y (to_column dest) (ground (arith, apart)) t.clean (omega arith)
        (λ e. (lt, apart, ground arith, rw (same, other, bare, top-last e) refl))

-- What a part of the cards leaves for the rest.
record Rest (d : Dims) (s h : ℕ) (card : Card) (total num : ℕ)
    (out : Deriving × EmptyTwoColsRet × List ℕ) : Type 0 where
  more : ℕ
  left : out.2 ≡ times more s
  taking : Taking d s h card total num out.0 more out.1

-- What holds of a result, where there is one.
abbrev pub IfGiven : {A : Type 0} → (A → Type 0) → Option A → Type 0
IfGiven P (some a) = P a
IfGiven P none = Unit {0}

module _ (d : Dims) (s h : ℕ) (card : Card) (total num : ℕ) where
  to_freecells-Taking :
      (x : Deriving) (fc : ℕ) (ret : EmptyTwoColsRet) (n : ℕ)
      → Taking d s h card total num x n ret
      → Rest d s h card total num (to_freecells d x fc ret (times n s))
  unfolding to_freecells
  to_freecells-Taking x fc ret zero t = record { more = zero; left = refl; taking = t }
  to_freecells-Taking x fc ret (suc n) t =
      let dest = find_from (freecell_is_empty x.st) fc (d.freecells_num - fc) in
      elim (Bool-cases (ltb dest d.freecells_num)) [
        | inl e ↦ rw e (
            to_freecells-Taking (column_to_freecell x s dest) (dest + 1) (to_freecell dest) n
              (freecell-Taking d s h card total num x n ret t dest (ground (arith, e))))
        | inr e ↦ rw e (record { more = suc n; left = refl; taking = t })
      ]

  to_columns-Taking :
      (x : Deriving) (put : ℕ) (ret : EmptyTwoColsRet) (n : ℕ)
      → Taking d s h card total num x n ret
      → IfGiven
          (λ out. Taking d s h card total num out.0 0 out.1)
          (to_columns d x put ret (times n s))
  unfolding to_columns
  to_columns-Taking x put ret zero t = t
  to_columns-Taking x put ret (suc n) t =
      let dest = find_from (col_is_empty x.st) put (d.stacks_num - put) in
      let found = find_from-FoundFrom (col_is_empty x.st) put (d.stacks_num - put) in
      elim (Bool-cases (ltb dest d.stacks_num)) [
        | inl e ↦
            let lt : dest < d.stacks_num = ground (arith, e) in
            rw e (
              to_columns-Taking (column_to_column (copy_stack x dest) s dest) (dest + 1)
                (to_column dest) n
                (column-Taking d s h card total num x n ret t dest lt
                  (found.passes (omega (arith, lt, found.from)))))
        | inr e ↦ rw e tt
      ]

  -- The same of both loops, where all cards come from the one column.
  pub empty_two_cols-Taking :
      (x : Deriving) (n : ℕ)
      → Taking d s h card total num x n nowhere
      → IfGiven (λ out. Taking d s h card total num out.0 0 out.1) (empty_two_cols d x s 0 n 0)
  unfolding empty_two_cols
  empty_two_cols-Taking x n t =
      let first = to_freecells-Taking x 0 nowhere n t in
      let cells = to_freecells d x 0 nowhere (times n s) in
      let given =
        subst
          (λ cols.
            IfGiven (λ out. Taking d s h card total num out.0 0 out.1)
              (to_columns d cells.0 0 cells.1 cols))
          (sym first.left) (to_columns-Taking cells.0 0 cells.1 first.more first.taking) in
      subst
        (λ cols.
          IfGiven (λ out. Taking d s h card total num out.0 0 out.1)
            (to_columns d (to_freecells d x 0 nowhere cols).0 0 (to_freecells d x 0 nowhere cols).1
              (to_freecells d x 0 nowhere cols).2))
        (sym (append-nil (times n s))) given
