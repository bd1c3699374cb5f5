-- ===== src/Delta/Fields.antt =====
-- The encoder of a column as a list of fields, and reading fields one at a time.
use investigate_lack_of_pgo.Prelude.{
  ℕ, zero, suc, ◌+◌, ◌-◌, ◌/◌, ◌%◌, ◌^◌, ◌<◌, ◌≡◌, refl, ◌∙◌, ap, subst₂, arith, List, [], ◌∷◌,
  length, if◌then◌else◌, ◌==◌, Bool, Bool-cases, inl, inr,
}
use investigate_lack_of_pgo.Card.{empty_card}
use investigate_lack_of_pgo.State.{Column, col_get_card}
use investigate_lack_of_pgo.BitRw.{BitWriter, writer_write, BitReader, reader_read}
use investigate_lack_of_pgo.BitRw.Stream.{bit_at, position, IsValid}
use investigate_lack_of_pgo.BitRw.Fields.{
  Field, write_fields, total_width, write_fields-WrittenAll, same_bits,
}
use investigate_lack_of_pgo.BitRw.RoundTrip.{writer_write-Written, StandsAt, reader_read_lem}
use investigate_lack_of_pgo.Delta.{orig_num_cards, suit_bit, put_suits, has_init, encode_column}

-- The bits of the fields stand in the memory from bit `p` on.
unfoldable pub Holds : (ℕ → ℕ) → ℕ → ℕ → List Field → Type 0
Holds mem start p [] = p ≡ p
Holds mem start p ((len, d) ∷ fs) =
    ((j : ℕ) → j < len → bit_at mem start (p + j) ≡ d / 2 ^ j % 2) × Holds mem start (p + len) fs

pub write_fields-Holds :
    (fs : List Field) (w : BitWriter) (start p : ℕ)
    → IsValid w
    → w.start ≡ start
    → position w ≡ p
    → Holds (write_fields w fs).mem start p fs
unfolding Holds write_fields
write_fields-Holds [] w start p v e q = refl
write_fields-Holds ((len, d) ∷ fs) w start p v e q =
    let w' = writer_write w len d in
    let first = writer_write-Written len d w v in
    let rest = write_fields-WrittenAll fs w' first.valid in
    (
      λ j h.
          subst₂ (λ b o. bit_at (write_fields w' fs).mem b (o + j) ≡ d / 2 ^ j % 2) e q
            (same_bits (write_fields w' fs).mem w'.mem (position w + j) first.same_start
                (rest.kept (position w + j) (omega (arith, first.moved)))
              ∙ first.stored j h),
      write_fields-Holds fs w' start (p + len) first.valid (first.same_start ∙ e)
          (first.moved ∙ ap (λ o. o + len) q),
    )

-- One field is read, and the reader stands at the others.
pub record Reads (mem : ℕ → ℕ) (start p : ℕ) (d len : ℕ) (fs : List Field) (out : ℕ × BitReader)
    : Type 0 where
  pub value : out.0 ≡ d % 2 ^ len
  pub stands : StandsAt mem start (p + len) out.1
  pub holds : Holds mem start (p + len) fs

pub reader_read-Reads :
    (mem : ℕ → ℕ) (start p len d : ℕ) (fs : List Field) (r : BitReader)
    → StandsAt mem start p r
    → Holds mem start p ((len, d) ∷ fs)
    → Reads mem start p d len fs (reader_read r len)
unfolding Holds
reader_read-Reads mem start p len d fs r s h =
    let (value, next) = reader_read_lem d p len r s h.0 in
    record { value = value; stands = next; holds = h.1 }

unfoldable pub suit_fields : Column → ℕ → ℕ → List Field
unfolding suit_bit
suit_fields col i zero = []
suit_fields col i (suc n) = (1, suit_bit (col_get_card col i)) ∷ suit_fields col (i + 1) n

put_suits_lem :
    (n i : ℕ) (col : Column) (w : BitWriter)
    → put_suits w col i n ≡ write_fields w (suit_fields col i n)
unfolding put_suits write_fields suit_fields
put_suits_lem zero i col w = refl
put_suits_lem (suc n) i col w =
    put_suits_lem n (i + 1) col (writer_write w 1 (suit_bit (col_get_card col i)))

-- The fields that follow the two counts; `first` as in the decoder.
unfoldable pub derived_fields : Bool → Column → ℕ → List Field
unfolding suit_fields
derived_fields first col num_derived =
    let init_card = if first then col_get_card col 0 else empty_card in
    let in_seq = if first then num_derived - 1 else num_derived in
    let suits = suit_fields col (length col - in_seq) in_seq in
    if init_card == empty_card then suits else (6, init_card) ∷ suits

unfoldable pub column_fields : ℕ → Column → List Field
unfolding derived_fields
column_fields bits col =
    let num_orig = orig_num_cards col in
    let num_derived = length col - num_orig in
    (bits, num_orig)
    ∷ (4, num_derived)
    ∷ derived_fields (has_init num_orig num_derived) col num_derived

pub encode_column_lem :
    (bits : ℕ) (col : Column) (w : BitWriter)
    → encode_column bits w col ≡ write_fields w (column_fields bits col)
unfolding encode_column column_fields write_fields
encode_column_lem bits col w =
    let num_orig = orig_num_cards col in
    let num_derived = length col - num_orig in
    let first = has_init num_orig num_derived in
    let init_card = if first then col_get_card col 0 else empty_card in
    let in_seq = if first then num_derived - 1 else num_derived in
    let start = length col - in_seq in
    let counted = writer_write (writer_write w bits num_orig) 4 num_derived in
    elim (Bool-cases (init_card == empty_card)) [
      | inl e ↦ rw e (put_suits_lem in_seq start col counted)
      | inr e ↦ rw e (put_suits_lem in_seq start col (writer_write counted 6 init_card))
    ]

pub total_width-suit_fields : (n i : ℕ) (col : Column) → total_width (suit_fields col i n) ≡ n
unfolding total_width suit_fields
total_width-suit_fields zero i col = refl
total_width-suit_fields (suc n) i col = omega (arith, total_width-suit_fields n (i + 1) col)
