-- ===== src/Freecell/DifferentStacks/Visits.antt =====
-- Which sequences the loop over a column visits.
use investigate_lack_of_pgo.Prelude.{
  ℕ, zero, suc, ◌+◌, ◌-◌, ◌≤◌, ◌<◌, ◌≡◌, refl, ap, arith, false, inl, inr, not, ltb, Bool,
  Bool-cases, Option, some, List, [], ◌∷◌, length,
}
use investigate_lack_of_pgo.State.{Column, col_get_card}
use investigate_lack_of_pgo.Freecell.{Derived, is_parent_card}
use investigate_lack_of_pgo.Freecell.Loops.{append_lists, find_from-FoundFrom}
use investigate_lack_of_pgo.Freecell.DifferentStacks.{seq_end_of, for_sequences}
use investigate_lack_of_pgo.Freecell.DifferentStacks.Recorded.{
  EndsSequence, seq_end_of-EndsSequence,
}

-- The heights from which and to which the sequences of the column go, from the height on: one begins
-- where the last one ended, has parents all along, and goes on as long as it can.
pub data Sequences (col : Column) : ℕ → List (ℕ × ℕ) → Type 0 where
  top : (c : ℕ) → length col ≤ c → Sequences col c []
  sequence :
      (c seq_end : ℕ) {rest : List (ℕ × ℕ)}
      → EndsSequence col c seq_end
      → (seq_end + 1 < length col
          → is_parent_card (col_get_card col (seq_end + 1)) (col_get_card col seq_end) ≡ false)
      → Sequences col (seq_end + 1) rest
      → Sequences col c ((c, seq_end) ∷ rest)

-- what the body gives for each of the sequences, one after the other
abbrev pub for_each : (ℕ → ℕ → Option (List Derived)) → List (ℕ × ℕ) → Option (List Derived)
for_each body [] = some []
for_each body (s ∷ rest) = append_lists (body s.0 s.1) (for_each body rest)

longest :
    (col : Column) (c : ℕ)
    → c < length col
    → seq_end_of col c + 1 < length col
    → is_parent_card (col_get_card col (seq_end_of col c + 1)) (col_get_card col (seq_end_of col c))
      ≡ false
unfolding seq_end_of
longest col c h more =
    let test : ℕ → Bool =
      λ e. not (is_parent_card (col_get_card col (e + 1)) (col_get_card col e)) in
    let found = find_from-FoundFrom test c (length col - 1 - c) in
    let passes = found.passes (omega arith) in
    elim (Bool-cases (
      is_parent_card (col_get_card col (seq_end_of col c + 1))
        (col_get_card col (seq_end_of col c)))) [
          | inl e ↦ absurd (ground (arith, rw e at passes))
          | inr e ↦ e
        ]

-- With fuel for the cards from the height on, the loop over the sequences of a column ends, and gives
-- what its body gives for the sequences of the column from there, each once and in order: the first
-- begins at the height, each next one where the last one ended, up to the column's top; in each, every
-- card is on its parent, and none can be made longer.
pub for_sequences-Sequences :
    (fuel : ℕ) (col : Column) (c : ℕ) (body : ℕ → ℕ → Option (List Derived))
    → length col ≤ c + fuel
    → (runs : List (ℕ × ℕ)) × Sequences col c runs
      × (for_sequences fuel col c body ≡ for_each body runs)
unfolding for_sequences
for_sequences-Sequences zero col c body h =
    let over : ltb c (length col) ≡ false = ground (arith, h) in
    ([], top c (omega arith), rw over refl)
for_sequences-Sequences (suc fuel) col c body h = elim (Bool-cases (ltb c (length col))) [
  | inl lt ↦
      let seq_end = seq_end_of col c in
      let ends = seq_end_of-EndsSequence col c (ground (arith, lt)) in
      let (runs, visits, e) =
        for_sequences-Sequences fuel col (seq_end + 1) body (omega (arith, h, ends.from)) in
      (
        (c, seq_end) ∷ runs,
        sequence c seq_end ends (longest col c (ground (arith, lt))) visits,
        rw lt (ap (append_lists (body c seq_end)) e),
      )
  | inr over ↦ ([], top c (ground (arith, over)), rw over refl)
]
