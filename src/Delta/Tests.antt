-- ===== src/Delta/Tests.antt =====
-- A column through its encoding.
use investigate_lack_of_pgo.Prelude.{
  some, ◌^◌, ℕ, zero, suc, ◌≤◌, ◌<◌, ◌≡◌, refl, sym, subst₂, [], ◌∷◌, arith, ◌==◌, if◌then◌else◌,
}
use investigate_lack_of_pgo.State.{Column, col_get_card}
use investigate_lack_of_pgo.Card.{is_parent_card}
use investigate_lack_of_pgo.BitRw.{BitWriter, writer_init, BitReader, reader_init}
use investigate_lack_of_pgo.BitRw.Stream.{position}
use investigate_lack_of_pgo.BitRw.Fields.{
  write_fields, writer_init-IsValid, start-writer_init, position-writer_init,
}
use investigate_lack_of_pgo.BitRw.RoundTrip.{StandsAt, reader_init-StandsAt}
use investigate_lack_of_pgo.Delta.{orig_num_cards, encode_column, decode_column}
use investigate_lack_of_pgo.Delta.Freecells.{
  freecells_encoding, cell_fields, freecells_encoding-sorted, freecells_encoding-descending,
}
use investigate_lack_of_pgo.Delta.Width.{
  bits_per_orig_cards, max_num_cards, IsWidth, bits_per_orig_cards-IsWidth,
}
use investigate_lack_of_pgo.Delta.Copy.{copy_encoding}
use investigate_lack_of_pgo.Delta.Stored.{decode_column-copy_encoding}
use investigate_lack_of_pgo.Delta.RoundTrip.{IsDerived, Decoded, decode_column-encode_column}

-- the king of clubs, the five of hearts, the four of clubs and the three of diamonds
abbrev column : Column
column = 53 ∷ 20 ∷ 17 ∷ 14 ∷ []

abbrev initial : Column
initial = 53 ∷ 20 ∷ 9 ∷ []

abbrev foundations : ℕ → ℕ
foundations = λ suit. 14

abbrev writer : BitWriter
writer = writer_init (λ a. 0) 0

abbrev reader : BitReader
reader = reader_init (encode_column 3 writer column).mem 0

orig_cards : orig_num_cards column ≡ 2
unfolding orig_num_cards is_parent_card
orig_cards = refl

kept : (k : ℕ) → k < 2 → col_get_card initial k ≡ col_get_card column k
kept zero h = refl
kept (suc zero) h = refl
kept (suc (suc k)) h = absurd (omega arith)

stored : (k : ℕ) → k < 4 → (col_get_card column k < 64) × (1 ≤ col_get_card column k)
stored zero h = omega arith
stored (suc zero) h = omega arith
stored (suc (suc zero)) h = omega arith
stored (suc (suc (suc zero))) h = omega arith
stored (suc (suc (suc (suc k)))) h = absurd (omega arith)

column-IsDerived : IsDerived 3 initial column
column-IsDerived = record {
  few = omega (arith, orig_cards);
  derived = omega (arith, orig_cards);
  kept = λ k h. kept k (omega (arith, orig_cards));
  cards = λ k h. (stored k h).0;
  filled = λ k h. (stored k h).1;
}

reader-StandsAt : StandsAt (encode_column 3 writer column).mem writer.start (position writer) reader
reader-StandsAt =
    subst₂ (λ b q. StandsAt (encode_column 3 writer column).mem b q reader)
      (sym (start-writer_init (λ a. 0) 0)) (sym (position-writer_init (λ a. 0) 0))
      reader_init-StandsAt

decode_column-encode_column_example :
    Decoded
      (encode_column 3 writer column).mem
      writer.start
      (position (encode_column 3 writer column))
      foundations
      column
      (decode_column 3 initial reader foundations)
decode_column-encode_column_example =
    decode_column-encode_column 3 initial column foundations writer reader
      (writer_init-IsValid (λ a. 0) 0) column-IsDerived reader-StandsAt

-- the two of clubs beneath the two of diamonds
abbrev descending : ℕ → ℕ
descending = λ i. if i == 0 then 10 else 9

freecells_encoding-sorted_example :
    freecells_encoding 4 writer (λ i. i) ≡ write_fields writer (cell_fields (λ i. i) 0 4)
freecells_encoding-sorted_example = freecells_encoding-sorted 4 writer (λ i. i) (λ a b p q. p)

freecells_encoding-descending_example :
    freecells_encoding 2 writer descending ≡ write_fields writer ((6, 10) ∷ (6, 10) ∷ [])
freecells_encoding-descending_example =
    freecells_encoding-descending writer descending (omega arith)

bits_per_orig_cards-IsWidth_example :
    (bits : ℕ) × (bits_per_orig_cards (λ i. initial) 8 ≡ some bits)
    × IsWidth (max_num_cards (λ i. initial) 8) bits
    × ((i : ℕ) → i < 8 → orig_num_cards initial < 2 ^ bits)
bits_per_orig_cards-IsWidth_example =
    bits_per_orig_cards-IsWidth (λ i. initial) 8 (λ i h. omega arith)

-- the state's string, with the column copied from its buffer at the address 100
abbrev stored_column : BitWriter
stored_column = copy_encoding writer (encode_column 3 (writer_init (λ a. 0) 100) column)

stored_reader-StandsAt :
    StandsAt stored_column.mem writer.start (position writer) (reader_init stored_column.mem 0)
stored_reader-StandsAt =
    subst₂ (λ b q. StandsAt stored_column.mem b q (reader_init stored_column.mem 0))
      (sym (start-writer_init (λ a. 0) 0)) (sym (position-writer_init (λ a. 0) 0))
      reader_init-StandsAt

decode_column-copy_encoding_example :
    Decoded stored_column.mem writer.start
      (position stored_column)
      foundations
      column
      (decode_column 3 initial (reader_init stored_column.mem 0) foundations)
decode_column-copy_encoding_example =
    decode_column-copy_encoding 3 initial column foundations (λ a. 0) 100 writer
      (reader_init stored_column.mem 0) (writer_init-IsValid (λ a. 0) 0) column-IsDerived
      stored_reader-StandsAt
