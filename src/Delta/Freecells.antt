-- ===== src/Delta/Freecells.antt =====
-- fc_solve_get_freecells_encoding: the cards in the freecells, which the code means to sort.
use investigate_lack_of_pgo.Prelude.{
  ℕ, zero, suc, ◌+◌, ◌≤◌, ◌<◌, ◌≡◌, refl, arith, not, ltb, ◌==◌, if◌then◌else◌, List, [], ◌∷◌,
  update, true, false,
}
use investigate_lack_of_pgo.Card.{Card}
use investigate_lack_of_pgo.BitRw.{BitWriter, writer_write}
use investigate_lack_of_pgo.BitRw.Fields.{Field, write_fields}

-- the inner loop from `j`, with `rounds` rounds left
unfoldable pub min_index : (ℕ → Card) → ℕ → ℕ → ℕ → ℕ
min_index freecells j zero min_idx = min_idx
min_index freecells j (suc rounds) min_idx =
    min_index freecells (j + 1) rounds
      (if ltb (freecells j) (freecells min_idx) then j else min_idx)

-- The outer loop from `i`. The card written is the value of the conditional expression, whose
-- assignment has the value that it assigns.
unfoldable pub put_freecells : BitWriter → (ℕ → Card) → ℕ → ℕ → BitWriter
unfolding min_index
put_freecells w freecells i zero = w
put_freecells w freecells i (suc rounds) =
    let min_idx = min_index freecells (i + 1) rounds i in
    let moves = not (min_idx == i) in
    let card = if moves then freecells i else freecells i in
    let after = if moves then update freecells min_idx (freecells i) else freecells in
    put_freecells (writer_write w 6 card) after (i + 1) rounds

-- `freecells` is the copy of the state's freecells
unfoldable pub freecells_encoding : ℕ → BitWriter → (ℕ → Card) → BitWriter
unfolding put_freecells
freecells_encoding num_freecells w freecells = put_freecells w freecells 0 num_freecells

-- six bits for each of `n` freecells from `i` on
unfoldable pub cell_fields : (ℕ → Card) → ℕ → ℕ → List Field
cell_fields freecells i zero = []
cell_fields freecells i (suc n) = (6, freecells i) ∷ cell_fields freecells (i + 1) n

min_index-sorted :
    (freecells : ℕ → Card) (rounds i j : ℕ)
    → ((k : ℕ) → j ≤ k → k < j + rounds → freecells i ≤ freecells k)
    → min_index freecells j rounds i ≡ i
unfolding min_index
min_index-sorted freecells zero i j h = refl
min_index-sorted freecells (suc rounds) i j h =
    let stays : ltb (freecells j) (freecells i) ≡ false =
      ground (arith, h j (omega arith) (omega arith)) in
    rw stays
      (min_index-sorted freecells rounds i (j + 1) (λ k a b. h k (omega arith) (omega arith)))

put_freecells-sorted :
    (freecells : ℕ → Card) (n i : ℕ) (w : BitWriter)
    → ((a b : ℕ) → i ≤ a → a ≤ b → b < i + n → freecells a ≤ freecells b)
    → put_freecells w freecells i n ≡ write_fields w (cell_fields freecells i n)
unfolding put_freecells write_fields cell_fields
put_freecells-sorted freecells zero i w h = refl
put_freecells-sorted freecells (suc n) i w h =
    let least : min_index freecells (i + 1) n i ≡ i =
      min_index-sorted freecells n i (i + 1)
        (λ k a b. h i k (omega arith) (omega arith) (omega arith)) in
    let here : (i == i) ≡ true = ground arith in
    rw (least, here)
      (put_freecells-sorted freecells n (i + 1) (writer_write w 6 (freecells i))
        (λ a b p q r. h a b (omega arith) q (omega arith)))

-- Freecells whose cards already ascend are encoded as six bits each, in order.
pub freecells_encoding-sorted :
    (num_freecells : ℕ) (w : BitWriter) (freecells : ℕ → Card)
    → ((a b : ℕ) → a ≤ b → b < num_freecells → freecells a ≤ freecells b)
    → freecells_encoding num_freecells w freecells
      ≡ write_fields w (cell_fields freecells 0 num_freecells)
unfolding freecells_encoding
freecells_encoding-sorted num_freecells w freecells h =
    put_freecells-sorted freecells num_freecells 0 w (λ a b p q r. h a b q (omega arith))

-- Two freecells whose cards descend are encoded as two copies of the greater card: whatever the
-- lesser card is, it is not in the encoding.
pub freecells_encoding-descending :
    (w : BitWriter) (freecells : ℕ → Card)
    → freecells 1 < freecells 0
    → freecells_encoding 2 w freecells ≡ write_fields w ((6, freecells 0) ∷ (6, freecells 0) ∷ [])
unfolding freecells_encoding put_freecells min_index write_fields
freecells_encoding-descending w freecells h =
    let less : ltb (freecells 1) (freecells 0) ≡ true = ground arith in rw less refl
