-- ===== src/Prelude/Arrays.antt =====
-- C arrays as functions of the index, and sums over the first cells of one.
use Prim.Native.Nat.{ℕ, zero, suc, ◌+◌, ◌≤◌, ◌<◌}
use mathlib.Core.Path.{◌≡◌, refl}
use mathlib.Core.Logic.{inl, inr}
use native.Mathlib.Omega.{arith}
use native.Mathlib.Numerals.{add-one}
use investigate_lack_of_pgo.Prelude.Tests.{◌==◌, if◌then◌else◌, Bool-cases}

module _ {ℓ} {A : Type ℓ} where
  -- `f[i] = v`
  abbrev pub update : (ℕ → A) → ℕ → A → ℕ → A
  update f i v j = if i == j then v else f j

  -- exchange `f[i]` and `f[j]`
  abbrev pub swap_cells : (ℕ → A) → ℕ → ℕ → ℕ → A
  swap_cells f i j = update (update f i (f j)) j (f i)

-- g 0 + … + g (n - 1)
unfoldable pub sum_below : ℕ → (ℕ → ℕ) → ℕ
sum_below zero g = 0
sum_below (suc n) g = sum_below n g + g n

pub sum_below_zero : (g : ℕ → ℕ) → sum_below 0 g ≡ 0
unfolding sum_below
sum_below_zero g = refl

pub sum_below_suc : (n : ℕ) (g : ℕ → ℕ) → sum_below (n + 1) g ≡ sum_below n g + g n
unfolding sum_below
sum_below_suc n g = rw add-one

pub sum_below_cong :
    (n : ℕ) (g h : ℕ → ℕ) → ((i : ℕ) → i < n → g i ≡ h i) → sum_below n g ≡ sum_below n h
unfolding sum_below
sum_below_cong zero g h e = refl
sum_below_cong (suc n) g h e =
    omega (arith, e n (omega arith), sum_below_cong n g h (λ i p. e i (omega arith)))

-- A sum whose terms depend on the index too.
module _ {ℓ} {A : Type ℓ} (h : ℕ → A → ℕ) where
  sum_below-update_at_out :
      (n : ℕ) (f : ℕ → A) (i : ℕ) (v : A)
      → n ≤ i
      → sum_below n (λ j. h j (update f i v j)) ≡ sum_below n (λ j. h j (f j))
  sum_below-update_at_out n f i v p = sum_below_cong n _ _ (λ j q. ground arith)

  -- A write trades the old cell for the new one.
  pub sum_below-update_at :
      (n : ℕ) (f : ℕ → A) (i : ℕ) (v : A)
      → i < n
      → sum_below n (λ j. h j (update f i v j)) + h i (f i) ≡ sum_below n (λ j. h j (f j)) + h i v
  unfolding sum_below
  sum_below-update_at zero f i v p = absurd (omega arith)
  sum_below-update_at (suc n) f i v p = elim (Bool-cases (i == n)) [
    | inl e ↦ ground (arith, sum_below-update_at_out n f i v (ground arith))
    | inr e ↦ ground (arith, sum_below-update_at n f i v (ground arith))
  ]

module _ {ℓ} {A : Type ℓ} (g : A → ℕ) where
  pub sum_below-update :
      (n : ℕ) (f : ℕ → A) (i : ℕ) (v : A)
      → i < n
      → sum_below n (λ j. g (update f i v j)) + g (f i) ≡ sum_below n (λ j. g (f j)) + g v
  sum_below-update = sum_below-update_at (λ j. g)

  pub sum_below-swap :
      (n : ℕ) (f : ℕ → A) (i j : ℕ)
      → i < n
      → j < n
      → sum_below n (λ k. g (swap_cells f i j k)) ≡ sum_below n (λ k. g (f k))
  sum_below-swap n f i j hi hj =
      ground
        (arith, sum_below-update n (update f i (f j)) j (f i) hj, sum_below-update n f i (f j) hi)
