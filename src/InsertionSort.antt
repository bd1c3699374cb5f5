-- ===== src/InsertionSort.antt =====
-- The insertion sort that fc_solve_canonize_state and fc_solve_canonize_state_with_locs run over
-- the columns and over the freecells, for any type of cells.
pub mod Sorted
pub mod Canonical
pub mod Locations
pub mod Places
use investigate_lack_of_pgo.Prelude.{
  ℕ, zero, suc, ◌+◌, ◌-◌, ◌≡◌, Bool, true, false, swap_cells, if◌then◌else◌,
}

-- A test "comes before", and the laws that make the sorted order of some cells unique.
pub record Order {ℓ} (A : Type ℓ) : Type ℓ where
  pub less : A → A → Bool
  pub less_asymm : (a b : A) → less a b ≡ true → less b a ≡ false
  pub not_less_trans : (a b c : A) → less b a ≡ false → less c b ≡ false → less c a ≡ false
  pub not_less_antisymm : (a b : A) → less a b ≡ false → less b a ≡ false → a ≡ b

module _ {ℓ} {A : Type ℓ} (o : Order A) where
  -- the inner loop, with `c` going down
  unfoldable pub sink_back : ℕ → (ℕ → A) → ℕ → A
  sink_back zero f = f
  sink_back (suc c) f =
      let rest = sink_back c (swap_cells f (suc c) c) in
      if o.less (f (suc c)) (f c) then rest else f

  -- the outer loop from `b`, with `rounds` rounds left
  unfoldable pub sort_rounds : ℕ → ℕ → (ℕ → A) → ℕ → A
  unfolding sink_back
  sort_rounds zero b f = f
  sort_rounds (suc rounds) b f = sort_rounds rounds (b + 1) (sink_back b f)

  unfoldable pub insertion_sort : ℕ → (ℕ → A) → ℕ → A
  unfolding sort_rounds
  insertion_sort n f = sort_rounds (n - 1) 1 f

  -- the same loops, which move the locations along with the cells
  pub record Located : Type ℓ where
    pub cells : ℕ → A
    pub locs : ℕ → ℕ

  unfoldable pub sink_back_locs : ℕ → Located → Located
  sink_back_locs zero s = s
  sink_back_locs (suc c) s =
      let rest =
        sink_back_locs c
          (record { cells = swap_cells s.cells (suc c) c; locs = swap_cells s.locs (suc c) c }) in
      if o.less (s.cells (suc c)) (s.cells c) then rest else s

  unfoldable pub sort_rounds_locs : ℕ → ℕ → Located → Located
  unfolding sink_back_locs
  sort_rounds_locs zero b s = s
  sort_rounds_locs (suc rounds) b s = sort_rounds_locs rounds (b + 1) (sink_back_locs b s)

  unfoldable pub insertion_sort_locs : ℕ → Located → Located
  unfolding sort_rounds_locs
  insertion_sort_locs n s = sort_rounds_locs (n - 1) 1 s
