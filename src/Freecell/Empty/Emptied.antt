-- ===== src/Freecell/Empty/Emptied.antt =====
-- empty_two_cols_from_new_state as a whole.
use investigate_lack_of_pgo.Prelude.{
  ℕ, ◌+◌, ◌-◌, ◌≤◌, ◌≡◌, refl, ap, arith, Bool, List, [], ◌++◌, length,
}
use investigate_lack_of_pgo.State.{State, Dims}
use investigate_lack_of_pgo.Freecell.{Deriving, freecell_is_empty}
use investigate_lack_of_pgo.Freecell.Loops.{count_from, count_from-cong, Succeeds, Succeeds-map}
use investigate_lack_of_pgo.Freecell.Recorded.{Recorded}
use investigate_lack_of_pgo.Freecell.Empty.{
  EmptyTwoColsRet, nowhere, num_vacant_freecells, num_vacant_stacks, empty_two_cols, to_freecells,
  col_is_empty, next_put, times,
}
use investigate_lack_of_pgo.Freecell.Empty.Progress.{Ready, Progress, Progress-trans}
use investigate_lack_of_pgo.Freecell.Empty.ToFreecells.{CleanFrom, to_freecells-Filled}
use investigate_lack_of_pgo.Freecell.Empty.ToColumns.{Relocated, to_columns-Relocated}

abbrev pub two_cols : ℕ → ℕ → ℕ → ℕ → List ℕ
two_cols col_1 col_2 num_1 num_2 = times num_1 col_1 ++ times num_2 col_2

pub count_all : (test : ℕ → Bool) (n : ℕ) → count_from test 0 (n - 0) ≡ count_from test 0 n
count_all test n = ap (count_from test 0) (omega arith)

-- The cards have moved, as recorded moves; vacant columns are left as many as the freecells did not
-- leave cards for.
pub record Emptied (d : Dims) (parent : State) (x : Deriving) (cols : List ℕ)
    (out : Deriving × EmptyTwoColsRet) : Type 0 where
  pub recorded : Recorded d parent out.0
  pub progress : Progress x cols out.0 []
  pub vacant :
      count_from (col_is_empty out.0.st) (next_put out.1) (d.stacks_num - next_put out.1)
        + (length cols - num_vacant_freecells d x.st)
      ≡ num_vacant_stacks d x.st

-- From a recorded state whose columns keep a card each and are its own, the assertion of
-- `empty_two_cols_from_new_state` holds, given freecells and columns enough, and the top cards move
-- to these by moves that follow the rules.
pub empty_two_cols-Emptied :
    (d : Dims) (parent : State) (x : Deriving) (col_1 col_2 num_1 num_2 : ℕ)
    → Recorded d parent x
    → Ready d x (two_cols col_1 col_2 num_1 num_2)
    → CleanFrom d x.st 0
    → length (two_cols col_1 col_2 num_1 num_2)
      ≤ num_vacant_freecells d x.st + num_vacant_stacks d x.st
    → Succeeds
        (Emptied d parent x (two_cols col_1 col_2 num_1 num_2))
        (empty_two_cols d x col_1 col_2 num_1 num_2)
unfolding empty_two_cols
empty_two_cols-Emptied d parent x col_1 col_2 num_1 num_2 r q clean room =
    let cols = two_cols col_1 col_2 num_1 num_2 in
    let filled = to_freecells-Filled d parent x 0 nowhere cols r q clean (omega arith) refl in
    let out = to_freecells d x 0 nowhere cols in
    let same =
      count_from-cong (col_is_empty out.0.st) (col_is_empty x.st) 0 d.stacks_num
        (λ i h k. filled.vacant i) in
    let all = count_all (col_is_empty out.0.st) d.stacks_num in
    let cells = count_all (freecell_is_empty x.st) d.freecells_num in
    Succeeds-map (Relocated d parent out.0 0 out.2) (Emptied d parent x cols) _
      (λ end l. record {
        recorded = l.recorded;
        progress = Progress-trans x out.0 end.0 cols out.2 [] filled.progress l.progress;
        vacant = omega (arith, l.vacant, same, all, cells, filled.left);
      })
      (to_columns-Relocated d parent out.0 0 out.1 out.2 filled.recorded filled.ready
        filled.no_column (omega arith) (omega (arith, same, all, cells, filled.left, room)))
