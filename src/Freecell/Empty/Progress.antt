-- ===== src/Freecell/Empty/Progress.antt =====
-- Taking cards off columns: what a part of the cards to move leaves for the rest.
use investigate_lack_of_pgo.Prelude.{
  ℕ, zero, suc, ◌+◌, ◌-◌, ◌≤◌, ◌<◌, ◌≡◌, ◌≢◌, refl, ◌∙◌, sym, ap, subst, arith, true, false, ◌==◌,
  if◌then◌else◌, Bool-cases, inl, inr, List, [], ◌∷◌, length,
}
use investigate_lack_of_pgo.Card.{card_is_empty}
use investigate_lack_of_pgo.State.{Dims, Column, col_pop_top, col_get_card}
use investigate_lack_of_pgo.State.Changes.{length-col_pop_top, get-col_pop_top}
use investigate_lack_of_pgo.Freecell.{Deriving}

-- How many of the cards come from the column.
unfoldable pub occurs : ℕ → List ℕ → ℕ
occurs c [] = 0
occurs c (s ∷ cols) = (if s == c then 1 else 0) + occurs c cols

-- the column without its `n` top cards
unfoldable pub pops : ℕ → Column → Column
pops zero col = col
pops (suc n) col = pops n (col_pop_top col)

-- The columns that cards come from are columns of the new state, and keep a card.
pub record Ready (d : Dims) (x : Deriving) (cols : List ℕ) : Type 0 where
  pub below : (c : ℕ) → 1 ≤ occurs c cols → c < d.stacks_num
  pub own : (c : ℕ) → 1 ≤ occurs c cols → x.copied c ≡ true
  pub deep : (c : ℕ) → 1 ≤ occurs c cols → occurs c cols < length (x.st.stacks c)

-- From `x`, with `cols` to move, to `y`, with `left`: columns that keep a card come to the same in
-- the end, and cells that were full, foundations and what is the state's own stay.
pub record Progress (x : Deriving) (cols : List ℕ) (y : Deriving) (left : List ℕ) : Type 0 where
  pub columns :
      (c : ℕ)
      → occurs c cols < length (x.st.stacks c)
      → (pops (occurs c left) (y.st.stacks c) ≡ pops (occurs c cols) (x.st.stacks c))
        × (occurs c left < length (y.st.stacks c))
  pub cells :
      (i : ℕ) → card_is_empty (x.st.freecells i) ≡ false → y.st.freecells i ≡ x.st.freecells i
  pub foundations : y.st.foundations ≡ x.st.foundations
  pub kept : (i : ℕ) → x.copied i ≡ true → y.copied i ≡ true

pub Progress-refl : (x : Deriving) (cols : List ℕ) → Progress x cols x cols
Progress-refl x cols = record {
  columns = λ c h. (refl, h);
  cells = λ i h. refl;
  foundations = refl;
  kept = λ i h. h;
}

pub Progress-trans :
    (x y z : Deriving) (a b c : List ℕ) → Progress x a y b → Progress y b z c → Progress x a z c
Progress-trans x y z a b c p q = record {
  columns = λ i h. let (e, k) = p.columns i h in let (e', k') = q.columns i k in (e' ∙ e, k');
  cells = λ i h. q.cells i (ap card_is_empty (p.cells i h) ∙ h) ∙ p.cells i h;
  foundations = q.foundations ∙ p.foundations;
  kept = λ i h. q.kept i (p.kept i h);
}

-- One card taken off column `c`; other columns that are not empty stay.
pub record TakesTop (x : Deriving) (c : ℕ) (y : Deriving) : Type 0 where
  pub source : y.st.stacks c ≡ col_pop_top (x.st.stacks c)
  pub others : (i : ℕ) → c ≢ i → 1 ≤ length (x.st.stacks i) → y.st.stacks i ≡ x.st.stacks i
  pub full :
      (i : ℕ) → card_is_empty (x.st.freecells i) ≡ false → y.st.freecells i ≡ x.st.freecells i
  pub same : y.st.foundations ≡ x.st.foundations
  pub kept : (i : ℕ) → x.copied i ≡ true → y.copied i ≡ true

occurs-same : (c : ℕ) (cols : List ℕ) → occurs c (c ∷ cols) ≡ suc (occurs c cols)
unfolding occurs
occurs-same c cols = ground arith

occurs-other : (c i : ℕ) (cols : List ℕ) → c ≢ i → occurs i (c ∷ cols) ≡ occurs i cols
unfolding occurs
occurs-other c i cols ne = ground (arith, ne)

-- What is left of one column after the card is taken.
ColumnStep : Deriving → List ℕ → Deriving → List ℕ → ℕ → Type 0
ColumnStep x cols y left i =
    (pops (occurs i left) (y.st.stacks i) ≡ pops (occurs i cols) (x.st.stacks i))
    × (occurs i left < length (y.st.stacks i))

module _ (x y : Deriving) (c : ℕ) (cols : List ℕ) (t : TakesTop x c y) where
  source_step : occurs c (c ∷ cols) < length (x.st.stacks c) → ColumnStep x (c ∷ cols) y cols c
  unfolding pops ColumnStep
  source_step h = (
    ap (pops (occurs c cols)) t.source
        ∙ ap (λ n. pops n (x.st.stacks c)) (sym (occurs-same c cols)),
    subst (λ col. occurs c cols < length col) (sym t.source)
        (omega (arith, h, occurs-same c cols, length-col_pop_top (x.st.stacks c))),
  )

  other_step :
      (i : ℕ)
      → c ≢ i
      → occurs i (c ∷ cols) < length (x.st.stacks i)
      → ColumnStep x (c ∷ cols) y cols i
  unfolding ColumnStep
  other_step i ne h =
      let stays = t.others i ne (omega (arith, h)) in
      (
        ap (pops (occurs i cols)) stays
            ∙ ap (λ n. pops n (x.st.stacks i)) (sym (occurs-other c i cols ne)),
        subst (λ col. occurs i cols < length col) (sym stays)
            (omega (arith, h, occurs-other c i cols ne)),
      )

  step : (i : ℕ) → occurs i (c ∷ cols) < length (x.st.stacks i) → ColumnStep x (c ∷ cols) y cols i
  step i h = elim (Bool-cases (c == i)) [
    | inl e ↦
        let same : c ≡ i = ground (arith, e) in
        subst (λ j. occurs j (c ∷ cols) < length (x.st.stacks j) → ColumnStep x (c ∷ cols) y cols j)
          same source_step h
    | inr e ↦ other_step i (ground (arith, e)) h
  ]

  pub TakesTop-Progress : Progress x (c ∷ cols) y cols
  unfolding ColumnStep
  TakesTop-Progress = record { columns = step; cells = t.full; foundations = t.same; kept = t.kept }

occurs-more : (c i : ℕ) (cols : List ℕ) → 1 ≤ occurs i cols → 1 ≤ occurs i (c ∷ cols)
unfolding occurs
occurs-more c i cols h = omega (arith, h)

-- The rest can be moved from there.
pub Progress-Ready :
    (d : Dims) (x y : Deriving) (c : ℕ) (cols : List ℕ)
    → Progress x (c ∷ cols) y cols
    → Ready d x (c ∷ cols)
    → Ready d y cols
Progress-Ready d x y c cols p r = record {
  below = λ i h. r.below i (occurs-more c i cols h);
  own = λ i h. p.kept i (r.own i (occurs-more c i cols h));
  deep = λ i h. (p.columns i (r.deep i (occurs-more c i cols h))).1;
}

-- What is known of the column of the next card.
pub first_of-Ready :
    (d : Dims) (x : Deriving) (c : ℕ) (cols : List ℕ)
    → Ready d x (c ∷ cols)
    → (c < d.stacks_num) × (x.copied c ≡ true) × (1 < length (x.st.stacks c))
first_of-Ready d x c cols r =
    let one : 1 ≤ occurs c (c ∷ cols) = omega (arith, occurs-same c cols) in
    (r.below c one, r.own c one, omega (arith, r.deep c one, one))

pub length-pops : (n : ℕ) (col : Column) → length (pops n col) ≡ length col - n
unfolding pops
length-pops zero col = omega arith
length-pops (suc n) col = omega (arith, length-pops n (col_pop_top col), length-col_pop_top col)

-- The cards under the popped ones stay.
pub get-pops :
    (n : ℕ) (col : Column) (i : ℕ)
    → i + n < length col
    → col_get_card (pops n col) i ≡ col_get_card col i
unfolding pops
get-pops zero col i h = refl
get-pops (suc n) col i h =
    get-pops n (col_pop_top col) i (omega (arith, h, length-col_pop_top col))
    ∙ get-col_pop_top col i (omega (arith, h))
