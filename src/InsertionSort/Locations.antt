-- ===== src/InsertionSort/Locations.antt =====
-- The sort that moves the locations along with the cells.
use investigate_lack_of_pgo.Prelude.{
  ℕ, zero, suc, ◌+◌, ◌-◌, ◌≤◌, ◌<◌, ◌≡◌, refl, ◌∙◌, swap_cells, arith, sum_below, sum_below-swap,
  Bool-cases, inl, inr,
}
use investigate_lack_of_pgo.InsertionSort.{
  Order, sink_back, sort_rounds, insertion_sort, Located, sink_back_locs, sort_rounds_locs,
  insertion_sort_locs,
}

module _ {ℓ} {A : Type ℓ} (o : Order A) where
  -- Each of the first `n` cells holds what `g` has at the cell's location.
  abbrev pub Follows : ℕ → (ℕ → A) → Located o → Type ℓ
  Follows n g s = (i : ℕ) → i < n → s.cells i ≡ g (s.locs i)

  -- What the sort with locations does: its cells are those of the plain sort, the locations
  -- follow them, and no location is lost.
  pub record Tracks (n : ℕ) (f : ℕ → A) (s s' : Located o) : Type ℓ where
    pub same_cells : s'.cells ≡ f
    pub follows : (g : ℕ → A) → Follows n g s → Follows n g s'
    pub same_locs :
        (weight : ℕ → ℕ)
        → sum_below n (λ i. weight (s'.locs i)) ≡ sum_below n (λ i. weight (s.locs i))

  sink_back-Tracks :
      (n c : ℕ) (s : Located o) → c < n → Tracks n (sink_back o c s.cells) s (sink_back_locs o c s)
  unfolding sink_back sink_back_locs
  sink_back-Tracks n zero s h = record {
    same_cells = refl;
    follows = λ g e. e;
    same_locs = λ w. refl;
  }
  sink_back-Tracks n (suc c) s h = elim (Bool-cases (o.less (s.cells (suc c)) (s.cells c))) [
    | inl down ↦
        let s' : Located o = record {
          cells = swap_cells s.cells (suc c) c;
          locs = swap_cells s.locs (suc c) c;
        } in
        let rest = sink_back-Tracks n c s' (omega arith) in
        rw down (record {
          same_cells = rest.same_cells;
          follows =
              λ g e. rest.follows g (λ i p. ground (arith, e i p, e c (omega arith), e (suc c) h));
          same_locs = λ w. rest.same_locs w ∙ sum_below-swap w n s.locs (suc c) c h (omega arith);
        })
    | inr stay ↦ rw stay (record { same_cells = refl; follows = λ g e. e; same_locs = λ w. refl })
  ]

  sort_rounds-Tracks :
      (n rounds b : ℕ) (s : Located o)
      → b + rounds ≤ n
      → Tracks n (sort_rounds o rounds b s.cells) s (sort_rounds_locs o rounds b s)
  unfolding sort_rounds sort_rounds_locs
  sort_rounds-Tracks n zero b s h = record {
    same_cells = refl;
    follows = λ g e. e;
    same_locs = λ w. refl;
  }
  sort_rounds-Tracks n (suc rounds) b s h =
      let first = sink_back-Tracks n b s (omega arith) in
      let rest = sort_rounds-Tracks n rounds (b + 1) (sink_back_locs o b s) (omega arith) in
      record {
        same_cells = rw (← first.same_cells) rest.same_cells;
        follows = λ g e. rest.follows g (first.follows g e);
        same_locs = λ w. rest.same_locs w ∙ first.same_locs w;
      }

  -- The sort with locations orders the cells as the plain one does; the locations move with their
  -- cells, and are the same locations in a new order.
  pub insertion_sort_locs-Tracks :
      (n : ℕ) (s : Located o) → Tracks n (insertion_sort o n s.cells) s (insertion_sort_locs o n s)
  unfolding insertion_sort insertion_sort_locs
  insertion_sort_locs-Tracks zero s = record {
    same_cells = refl;
    follows = λ g e. e;
    same_locs = λ w. refl;
  }
  insertion_sort_locs-Tracks (suc n) s = sort_rounds-Tracks (suc n) (suc n - 1) 1 s (omega arith)
