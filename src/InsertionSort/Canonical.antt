-- ===== src/InsertionSort/Canonical.antt =====
-- The sorted order of some cells depends on nothing but which cells they are.
use investigate_lack_of_pgo.Prelude.{
  ℕ, zero, suc, ◌≤◌, ◌<◌, ◌≡◌, ◌∙◌, sym, ap, false, if◌then◌else◌, arith, sum_below, sum_below_cong,
  Bool-cases, inl, inr, ◌↔◌, ◌==◌,
}
use investigate_lack_of_pgo.InsertionSort.{Order, insertion_sort}
use investigate_lack_of_pgo.InsertionSort.Sorted.{
  IsSorted, insertion_sort-IsSorted, insertion_sort-tally,
}

-- The first `n` cells hold the same values, each as often, in whatever order.
abbrev pub SameCells {ℓ} : {A : Type ℓ} → ℕ → (ℕ → A) → (ℕ → A) → Type ℓ
SameCells {A} n f g =
    (weight : A → ℕ) → sum_below n (λ i. weight (f i)) ≡ sum_below n (λ i. weight (g i))

module _ {ℓ} {A : Type ℓ} (o : Order A) where
  less_irrefl : (a : A) → o.less a a ≡ false
  less_irrefl a = elim (Bool-cases (o.less a a)) [ inl e ↦ o.less_asymm a a e | inr e ↦ e ]

  sorted_le :
      (n : ℕ) (f : ℕ → A) → IsSorted o n f → (i j : ℕ) → i ≤ j → j < n → o.less (f j) (f i) ≡ false
  sorted_le n f s i zero h k = let e : i ≡ 0 = omega arith in rw e (less_irrefl (f 0))
  sorted_le n f s i (suc j) h k = elim (Bool-cases (i == suc j)) [
    | inl e ↦ ground (arith, less_irrefl (f i))
    | inr e ↦
        o.not_less_trans (f i) (f j) (f (suc j)) (sorted_le n f s i j (ground arith) (omega arith))
          (s j k)
  ]

  abbrev is_same : A → A → ℕ
  is_same a b = if o.less a b then 0 else if o.less b a then 0 else 1

  is_same-eq : (a b : A) → 1 ≤ is_same a b → a ≡ b
  is_same-eq a b h = ground (arith, o.not_less_antisymm a b)

  is_same_self : (a : A) → is_same a a ≡ 1
  is_same_self a = ground (arith, less_irrefl a)

  -- A value with a positive count is found.
  found :
      (n : ℕ) (g : ℕ → A) (a : A)
      → 1 ≤ sum_below n (λ i. is_same a (g i))
      → (i : ℕ) × (i < n) × (a ≡ g i)
  unfolding sum_below
  found zero g a h = absurd (omega arith)
  found (suc n) g a h = elim (Bool-cases (is_same a (g n) == 0)) [
    | inl other ↦ let (i, p, e) = found n g a (ground arith) in (i, omega arith, e)
    | inr here ↦ (n, omega arith, is_same-eq a (g n) (ground arith))
  ]

  last_not_less :
      (n : ℕ) (f g : ℕ → A)
      → IsSorted o (suc n) g
      → SameCells (suc n) f g
      → o.less (g n) (f n) ≡ false
  unfolding sum_below
  last_not_less n f g s same =
      let (i, p, e) =
        found (suc n) g (f n) (omega (arith, same (is_same (f n)), is_same_self (f n))) in
      rw e (sorted_le (suc n) g s i n (omega arith) (omega arith))

  sorted_unique :
      (n : ℕ) (f g : ℕ → A)
      → IsSorted o n f
      → IsSorted o n g
      → SameCells n f g
      → (i : ℕ) → i < n
      → f i ≡ g i
  unfolding sum_below
  sorted_unique zero f g s t same i h = absurd (omega arith)
  sorted_unique (suc n) f g s t same i h =
      let last : f n ≡ g n =
        o.not_less_antisymm (f n) (g n) (last_not_less n g f s (λ w. sym (same w)))
          (last_not_less n f g t same) in
      let rest : SameCells n f g = λ w. omega (arith, same w, ap w last) in
      elim (Bool-cases (i == n)) [
        | inl e ↦ let e' : i ≡ n = ground arith in rw e' last
        | inr e ↦
            sorted_unique n f g (λ j q. s j (omega arith)) (λ j q. t j (omega arith)) rest i
              (ground arith)
      ]

  -- Two arrays sort to the same cells exactly when they hold the same cells, each as often.
  pub insertion_sort_canonical :
      (n : ℕ) (f g : ℕ → A)
      → ((i : ℕ) → i < n → insertion_sort o n f i ≡ insertion_sort o n g i) ↔ SameCells n f g
  insertion_sort_canonical n f g = (
    λ e w.
        sym (insertion_sort-tally o w n f)
        ∙ sum_below_cong n (λ i. w (insertion_sort o n f i)) (λ i. w (insertion_sort o n g i))
            (λ i h. ap w (e i h))
        ∙ insertion_sort-tally o w n g,
    λ same.
        sorted_unique n (insertion_sort o n f) (insertion_sort o n g)
          (insertion_sort-IsSorted o n f) (insertion_sort-IsSorted o n g)
          (λ w. insertion_sort-tally o w n f ∙ same w ∙ sym (insertion_sort-tally o w n g)),
  )
