-- ===== src/Delta/RoundTrip.antt =====
-- The decoder of a column takes back what the encoder wrote.
use investigate_lack_of_pgo.Prelude.{
  ℕ, ◌+◌, ◌-◌, ◌^◌, ◌≤◌, ◌<◌, ◌≡◌, refl, ◌∙◌, sym, subst, subst₂, arith, [], ◌∷◌, length, ◌==◌,
  Bool, true, false,
}
use native.Mathlib.Nat.{mod-eq_of_lt}
use investigate_lack_of_pgo.Card.{empty_card, is_parent_card}
use investigate_lack_of_pgo.State.{Column, col_get_card}
use investigate_lack_of_pgo.BitRw.{BitWriter, BitReader, reader_read}
use investigate_lack_of_pgo.BitRw.Stream.{position, IsValid}
use investigate_lack_of_pgo.BitRw.Fields.{total_width, write_fields, write_fields-WrittenAll}
use investigate_lack_of_pgo.BitRw.RoundTrip.{StandsAt}
use investigate_lack_of_pgo.Delta.{
  orig_num_cards, has_init, Decoding, push_orig, decode_column, add_card, encode_column,
  decode_with,
}
use investigate_lack_of_pgo.Delta.Fields.{
  Holds, write_fields-Holds, reader_read-Reads, suit_fields, derived_fields,
  total_width-suit_fields, column_fields, encode_column_lem,
}
use investigate_lack_of_pgo.Delta.Chain.{orig_num_cards-le, orig_num_cards-chain}
use investigate_lack_of_pgo.Delta.Sequence.{
  process_first, take_all, Taken, Taken-add_card, push_orig-Taken, end_of_column,
  end_of_column-Taken,
}

-- A column that its encoder can store: it begins as the initial column does where its sequence has
-- not begun, has at most fifteen other cards, and has cards of six bits in all its places.
pub record IsDerived (bits : ℕ) (orig_col col : Column) : Type 0 where
  pub few : orig_num_cards col < 2 ^ bits
  pub derived : length col - orig_num_cards col < 16
  pub kept : (k : ℕ) → k < orig_num_cards col → col_get_card orig_col k ≡ col_get_card col k
  pub cards : (k : ℕ) → k < length col → col_get_card col k < 64
  pub filled : (k : ℕ) → k < length col → 1 ≤ col_get_card col k

module _ (mem : ℕ → ℕ) (start : ℕ) (fs : ℕ → ℕ) (col : Column) where
  module _ (small : (k : ℕ) → k < length col → col_get_card col k < 64)
      (chain : (k : ℕ)
        → orig_num_cards col ≤ k
        → k < length col
        → 1 ≤ k
        → is_parent_card (col_get_card col k) (col_get_card col (k - 1)) ≡ true) where
    -- with cards of the initial column, or empty
    decode_on-Taken :
        (n p : ℕ) (d : Decoding)
        → Taken mem start p (orig_num_cards col) fs col d
        → orig_num_cards col + n ≡ length col
        → ((n == 0) ≡ false → 1 ≤ orig_num_cards col)
        → Holds mem start p (derived_fields false col n)
        → Taken mem start
            (p + total_width (derived_fields false col n))
            (length col)
            fs
            col
            (decode_with false d n)
    unfolding decode_with derived_fields
    decode_on-Taken n p d t e positive h =
        let from : length col - n ≡ orig_num_cards col = omega arith in
        let width : n ≡ total_width (suit_fields col (length col - n) n) =
          sym (total_width-suit_fields n (length col - n) col) in
        subst (λ q. Taken mem start (p + q) (length col) fs col (decode_with false d n)) width
          (end_of_column-Taken mem start fs col n (orig_num_cards col) p d t e positive small chain
            (subst (λ i. Holds mem start p (suit_fields col i n)) from h))

    -- with no card of the initial column, and some of the sequence
    decode_first-Taken :
        (n p : ℕ) (d : Decoding)
        → Taken mem start p 0 fs col d
        → orig_num_cards col ≡ 0
        → 1 ≤ n
        → n ≡ length col
        → 1 ≤ col_get_card col 0
        → Holds mem start p (derived_fields true col n)
        → Taken mem start
            (p + total_width (derived_fields true col n))
            (length col)
            fs
            col
            (decode_with true d n)
    unfolding decode_with derived_fields total_width
    decode_first-Taken n p d t none some e filled h =
        let shown : (col_get_card col 0 == empty_card) ≡ false = ground arith in
        let seq = n - 1 in
        let from : length col - seq ≡ 0 + 1 = omega arith in
        let suits = suit_fields col (length col - seq) seq in
        let reads =
          reader_read-Reads mem start p 6 (col_get_card col 0) suits d.bit_r t.stands
            (rw shown at h) in
        let (value, r) = reader_read d.bit_r 6 in
        let card : value ≡ col_get_card col 0 =
          reads.value ∙ mod-eq_of_lt (small 0 (omega arith)) in
        let started =
          Taken-add_card mem start fs col 0 p (p + 6) d r value t (omega arith) card reads.stands in
        let width : p + 6 + seq ≡ p + (6 + total_width suits) =
          omega (arith, total_width-suit_fields seq (length col - seq) col) in
        let ended =
          end_of_column-Taken mem start fs col seq (0 + 1) (p + 6) (add_card d r value) started
            (omega arith) (λ more. omega arith) small (λ k a. chain k (omega (arith, none)))
            (subst (λ i. Holds mem start (p + 6) (suit_fields col i seq)) from reads.holds) in
        rw shown (
          subst
            (λ q. Taken mem start q (length col) fs col (end_of_column (add_card d r value) seq))
            width ended)

    decode_with-Taken :
        (first : Bool) (p n : ℕ) (d : Decoding)
        → has_init (orig_num_cards col) n ≡ first
        → ((k : ℕ) → k < length col → 1 ≤ col_get_card col k)
        → Taken mem start p (orig_num_cards col) fs col d
        → orig_num_cards col + n ≡ length col
        → Holds mem start p (derived_fields first col n)
        → Taken mem start
            (p + total_width (derived_fields first col n))
            (length col)
            fs
            col
            (decode_with first d n)
    decode_with-Taken false p n d b filled t e h =
        decode_on-Taken n p d t e (λ more. ground (arith, b)) h
    decode_with-Taken true p n d b filled t e h =
        let none : orig_num_cards col ≡ 0 = ground (arith, b) in
        let some : 1 ≤ n = ground (arith, b) in
        decode_first-Taken n p d (subst (λ i. Taken mem start p i fs col d) none t) none some
          (omega (arith, none)) (filled 0 (omega arith)) h

  pub decode_column-Taken :
      (bits p : ℕ) (orig_col : Column) (r : BitReader)
      → IsDerived bits orig_col col
      → StandsAt mem start p r
      → Holds mem start p (column_fields bits col)
      → Taken mem start
          (p + total_width (column_fields bits col))
          (length col)
          fs
          col
          (decode_column bits orig_col r fs)
  unfolding decode_column column_fields process_first total_width
  decode_column-Taken bits p orig_col r v s h =
      let o = orig_num_cards col in
      let n = length col - o in
      let fields = derived_fields (has_init o n) col n in
      let reads = reader_read-Reads mem start p bits o ((4, n) ∷ fields) r s h in
      let (num_orig, r1) = reader_read r bits in
      let v1 : o ≡ num_orig = sym (reads.value ∙ mod-eq_of_lt v.few) in
      let d : Decoding = record { bit_r = r1; col = []; foundations = fs } in
      let none : Taken mem start (p + bits) 0 fs col d = record {
        stands = reads.stands;
        cards = refl;
        found = refl;
      } in
      let pushed =
        subst (λ k. Taken mem start (p + bits) o fs col (push_orig d orig_col k)) v1
          (push_orig-Taken mem start fs col orig_col o (p + bits) d none (orig_num_cards-le col)
            v.kept) in
      let before = push_orig d orig_col num_orig in
      let reads' =
        reader_read-Reads mem start (p + bits) 4 n fields before.bit_r pushed.stands reads.holds in
      let (num_derived, r2) = reader_read before.bit_r 4 in
      let v2 : n ≡ num_derived = sym (reads'.value ∙ mod-eq_of_lt v.derived) in
      let counted : Taken mem start (p + bits + 4) o fs col (record before { bit_r = r2 }) =
        record { stands = reads'.stands; cards = pushed.cards; found = pushed.found } in
      let done =
        decode_with-Taken v.cards (orig_num_cards-chain col) (has_init o n) (p + bits + 4) n
          (record before { bit_r = r2 }) refl v.filled counted
          (omega (arith, orig_num_cards-le col)) reads'.holds in
      let width : p + bits + 4 + total_width fields ≡ p + (bits + (4 + total_width fields)) =
        omega arith in
      subst
        (λ q.
          Taken mem start q (length col) fs col (
            decode_with (has_init num_orig num_derived) (record before { bit_r = r2 }) num_derived))
        width
        (subst₂
          (λ k m.
            Taken mem start (p + bits + 4 + total_width fields) (length col) fs col
              (decode_with (has_init k m) (record before { bit_r = r2 }) m))
          v1 v2 done)

-- What decoding gives: the column, the foundations after all of its cards, and the reader behind
-- the column.
pub record Decoded (mem : ℕ → ℕ) (start p : ℕ) (fs : ℕ → ℕ) (col : Column) (d : Decoding)
    : Type 0 where
  pub same : d.col ≡ col
  pub found : d.foundations ≡ process_first fs col (length col)
  pub stands : StandsAt mem start p d.bit_r

-- A column that the encoder can store, written behind whatever a writer has written, is decoded by a
-- reader that stands where it begins: the decoder gives the column, has processed all its cards for
-- the foundations, and stands where the column ends.
pub decode_column-encode_column :
    (bits : ℕ) (orig_col col : Column) (fs : ℕ → ℕ) (w : BitWriter) (r : BitReader)
    → IsValid w
    → IsDerived bits orig_col col
    → StandsAt (encode_column bits w col).mem w.start (position w) r
    → Decoded
        (encode_column bits w col).mem
        w.start
        (position (encode_column bits w col))
        fs
        col
        (decode_column bits orig_col r fs)
decode_column-encode_column bits orig_col col fs w r valid v =
    let fields = column_fields bits col in
    let written = write_fields-WrittenAll fields w valid in
    let mem = (write_fields w fields).mem in
    subst
      (λ w'.
        StandsAt w'.mem w.start (position w) r
        → Decoded w'.mem w.start (position w') fs col (decode_column bits orig_col r fs))
      (sym (encode_column_lem bits col w))
      (λ s.
        let taken =
          decode_column-Taken mem w.start fs col bits (position w) orig_col r v s
            (write_fields-Holds fields w w.start (position w) valid refl refl) in
        record {
          same = taken.cards ∙ take_all col;
          found = taken.found;
          stands =
              subst (λ q. StandsAt mem w.start q (decode_column bits orig_col r fs).bit_r)
                (sym written.moved) taken.stands;
        })
