-- ===== src/Delta.antt =====
-- delta_states.c: a column of a state that is derived from an initial one, as a string of bits. The
-- column is some cards of the initial column and a sequence on them, of which only the suits'
-- upper bits are stored. (FCS_FREECELL_ONLY)
pub mod Fields
pub mod Chain
pub mod Sequence
pub mod RoundTrip
pub mod Freecells
pub mod Width
pub mod Copy
pub mod Stored
mod Tests
use investigate_lack_of_pgo.Prelude.{
  ℕ, zero, suc, ◌+◌, ◌-◌, ◌*◌, ◌/◌, ◌%◌, ◌&&◌, Bool, not, ltb, leb, ◌==◌, if◌then◌else◌, [], length,
  update, bit_or,
}
use investigate_lack_of_pgo.Card.{Card, make_card, card_rank, card_suit, empty_card, is_parent_card}
use investigate_lack_of_pgo.State.{Column, col_push_card, col_get_card, col_top}
use investigate_lack_of_pgo.BitRw.{
  BitWriter, writer_init, writer_write, BitReader, reader_read, num_bits_in_bytes,
}

-- the loop of fc_solve_get_column_orig_num_cards, going down from the given number of cards
unfoldable pub orig_loop : Column → ℕ → ℕ
orig_loop col zero = 0
orig_loop col (suc n) =
    let rest = orig_loop col n in
    let goes_on = is_parent_card (col_get_card col n) (col_get_card col (n - 1)) in
    if leb 2 (suc n) && goes_on then rest else suc n

unfoldable pub orig_num_cards : Column → ℕ
unfolding orig_loop
orig_num_cards col =
    let num_cards = orig_loop col (length col) in if leb 2 num_cards then num_cards else 0

-- GET_SUIT_BIT
unfoldable pub suit_bit : Card → ℕ
suit_bit card = card_suit card / 2 % 2

-- the loop that writes the suit bits of the `n` cards from `i` on
unfoldable pub put_suits : BitWriter → Column → ℕ → ℕ → BitWriter
unfolding suit_bit
put_suits w col i zero = w
put_suits w col i (suc n) =
    put_suits (writer_write w 1 (suit_bit (col_get_card col i))) col (i + 1) n

-- Does a column start with a card that is stored as a whole?
abbrev pub has_init : ℕ → ℕ → Bool
has_init num_orig num_derived = num_orig == 0 && not (num_derived == 0)

-- The writes of fc_solve_get_column_encoding_composite, where `bits` is
-- bits_per_orig_cards_in_column; fcs_card2char leaves a card as it is.
unfoldable pub encode_column : ℕ → BitWriter → Column → BitWriter
unfolding orig_num_cards put_suits
encode_column bits w col =
    let num_orig = orig_num_cards col in
    let num_derived = length col - num_orig in
    let first = has_init num_orig num_derived in
    let init_card = if first then col_get_card col 0 else empty_card in
    let in_seq = if first then num_derived - 1 else num_derived in
    let counted = writer_write (writer_write w bits num_orig) 4 num_derived in
    let started = if init_card == empty_card then counted else writer_write counted 6 init_card in
    put_suits started col (length col - in_seq) in_seq

-- PROCESS_CARD
unfoldable pub process_card : (ℕ → ℕ) → Card → ℕ → ℕ
process_card foundations card =
    if ltb (card_rank card) (foundations (card_suit card))
    then update foundations (card_suit card) (card_rank card)
    else foundations

-- what the decoder of a column changes
pub record Decoding : Type 0 where
  pub bit_r : BitReader
  pub col : Column
  pub foundations : ℕ → ℕ

abbrev pub add_card : Decoding → BitReader → Card → Decoding
add_card d r card = record {
  bit_r = r;
  col = col_push_card d.col card;
  foundations = process_card d.foundations card;
}

-- the first `n` cards of the initial column
unfoldable pub push_orig : Decoding → Column → ℕ → Decoding
unfolding process_card
push_orig d orig zero = d
push_orig d orig (suc n) =
    let before = push_orig d orig n in add_card before before.bit_r (col_get_card orig n)

-- the card that a suit bit stands for, on the card before it
unfoldable pub next_card : ℕ → Card → Card
unfolding make_card
next_card bit last =
    make_card (card_rank last - 1) (bit_or (bit * 2) (if card_suit last % 2 == 1 then 0 else 1))

-- `n` cards of the sequence
unfoldable pub read_suits : Decoding → Card → ℕ → Decoding
unfolding next_card process_card
read_suits d last zero = d
read_suits d last (suc n) =
    let (bit, r) = reader_read d.bit_r 1 in
    let new_card = next_card bit last in read_suits (add_card d r new_card) new_card n

-- the cards on those of the initial column; `first`: is the lowest one stored as a whole?
unfoldable pub decode_with : Bool → Decoding → ℕ → Decoding
unfolding read_suits process_card
decode_with first d num_derived =
    let (card, r) = reader_read d.bit_r 6 in
    let started = if first then add_card d r card else d in
    let in_seq = if first then num_derived - 1 else num_derived in
    if in_seq == 0 then started else read_suits started (col_top started.col) in_seq

-- the body of the decoder's loop over the columns, for a column that is still empty
unfoldable pub decode_column : ℕ → Column → BitReader → (ℕ → ℕ) → Decoding
unfolding push_orig decode_with
decode_column bits orig_col bit_r foundations =
    let (num_orig, r) = reader_read bit_r bits in
    let pushed =
      push_orig (record { bit_r = r; col = []; foundations = foundations }) orig_col num_orig in
    let (num_derived, r') = reader_read pushed.bit_r 4 in
    decode_with (has_init num_orig num_derived) (record pushed { bit_r = r' }) num_derived
