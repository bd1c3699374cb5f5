-- ===== src/Freecell/Empty/TwoCols.antt =====
-- The cards to move off two columns, counted.
use investigate_lack_of_pgo.Prelude.{
  ℕ, zero, suc, ◌+◌, ◌-◌, ◌≤◌, ◌<◌, ◌≡◌, ◌≢◌, refl, ◌∙◌, sym, ap, subst, subst₂, arith, true, ◌==◌,
  ==_iff, if◌then◌else◌, Bool-cases, inl, inr, List, [], ◌∷◌, ◌++◌, length, length-append,
}
use investigate_lack_of_pgo.State.{Dims, Column, col_get_card, col_top}
use investigate_lack_of_pgo.Freecell.{Deriving}
use investigate_lack_of_pgo.Freecell.Empty.{times}
use investigate_lack_of_pgo.Freecell.Empty.Progress.{
  occurs, pops, Ready, Progress, length-pops, get-pops,
}
use investigate_lack_of_pgo.Freecell.Empty.Emptied.{two_cols}

occurs-append : (c : ℕ) (a b : List ℕ) → occurs c (a ++ b) ≡ occurs c a + occurs c b
unfolding occurs
occurs-append c [] b = omega arith
occurs-append c (s ∷ a) b = omega (arith, occurs-append c a b)

occurs-times : (c s n : ℕ) → occurs c (times n s) ≡ (if s == c then n else 0)
unfolding occurs
occurs-times c s zero = ground arith
occurs-times c s (suc n) = ground (arith, occurs-times c s n)

pub occurs-two_cols :
    (c a b n m : ℕ)
    → occurs c (two_cols a b n m) ≡ (if a == c then n else 0) + (if b == c then m else 0)
occurs-two_cols c a b n m =
    occurs-append c (times n a) (times m b) ∙ omega (arith, occurs-times c a n, occurs-times c b m)

length-times : (n s : ℕ) → length (times n s) ≡ n
length-times zero s = refl
length-times (suc n) s = omega (arith, length-times n s)

pub length-two_cols : (a b n m : ℕ) → length (two_cols a b n m) ≡ n + m
length-two_cols a b n m =
    length-append (times n a) (times m b) ∙ omega (arith, length-times n a, length-times m b)

-- A column of the new state's own that keeps a card when `n` of them go.
abbrev pub Keeps : Dims → Deriving → ℕ → ℕ → Type 0
Keeps d x c n = (c < d.stacks_num) × (x.copied c ≡ true) × (n < length (x.st.stacks c))

module _ (d : Dims) (x : Deriving) (a b n m : ℕ) (differ : 1 ≤ m → a ≢ b) where
  keeps :
      (1 ≤ n → Keeps d x a n)
      → (1 ≤ m → Keeps d x b m)
      → (c : ℕ) → 1 ≤ occurs c (two_cols a b n m)
      → Keeps d x c (occurs c (two_cols a b n m))
  keeps h k c one = elim (Bool-cases (a == c)) [
    | inl e ↦
        let same = (==_iff a c).0 e in
        let num : n ≡ occurs c (two_cols a b n m) =
          ground (arith, occurs-two_cols c a b n m, e, differ, same) in
        subst₂ (Keeps d x) same num (h (omega (arith, num, one)))
    | inr e ↦
        let num : m ≡ occurs c (two_cols a b n m) =
          ground (arith, occurs-two_cols c a b n m, e, one) in
        let same : b ≡ c = ground (arith, occurs-two_cols c a b n m, e, one) in
        subst₂ (Keeps d x) same num (k (omega (arith, num, one)))
  ]

  pub two_cols-Ready :
      (1 ≤ n → Keeps d x a n) → (1 ≤ m → Keeps d x b m) → Ready d x (two_cols a b n m)
  two_cols-Ready h k = record {
    below = λ c one. (keeps h k c one).0;
    own = λ c one. (keeps h k c one).1;
    deep = λ c one. (keeps h k c one).2;
  }

-- What a column is when all its cards have gone: cut, and the same under the cut.
pub record Cut (col : Column) (n : ℕ) (col' : Column) : Type 0 where
  pub shorter : length col' ≡ length col - n
  pub under : (i : ℕ) → i + n < length col → col_get_card col' i ≡ col_get_card col i

pub Progress-Cut :
    (x y : Deriving) (cols : List ℕ) (c n : ℕ)
    → Progress x cols y []
    → occurs c cols ≡ n
    → n < length (x.st.stacks c)
    → Cut (x.st.stacks c) n (y.st.stacks c)
unfolding pops occurs
Progress-Cut x y cols c n p e h =
    let cut : y.st.stacks c ≡ pops n (x.st.stacks c) =
      (p.columns c (omega (arith, e, h))).0 ∙ ap (λ k. pops k (x.st.stacks c)) e in
    subst (Cut (x.st.stacks c) n) (sym cut)
      (record { shorter = length-pops n (x.st.stacks c); under = get-pops n (x.st.stacks c) })

-- The top card of a column that was cut.
pub Cut-top :
    (col col' : Column) (n : ℕ)
    → Cut col n col'
    → n < length col
    → col_top col' ≡ col_get_card col (length col - n - 1)
Cut-top col col' n c h =
    ap (col_get_card col') (omega (arith, c.shorter))
    ∙ c.under (length col - n - 1) (omega (arith, h))
