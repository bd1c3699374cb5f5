-- ===== src/Delta/Stored.antt =====
-- A column through its own buffer and the state's string of bits, and back.
use investigate_lack_of_pgo.Prelude.{
  ℕ, ◌+◌, ◌<◌, ◌≡◌, refl, ◌∙◌, sym, subst, subst₂, arith, List, [], ◌∷◌,
}
use investigate_lack_of_pgo.State.{Column}
use investigate_lack_of_pgo.BitRw.{BitWriter, writer_init, BitReader}
use investigate_lack_of_pgo.BitRw.Stream.{bit_at, position, IsValid}
use investigate_lack_of_pgo.BitRw.Fields.{
  Field, total_width, write_fields, write_fields-WrittenAll, writer_init-IsValid,
  position-writer_init,
}
use investigate_lack_of_pgo.BitRw.RoundTrip.{StandsAt}
use investigate_lack_of_pgo.Delta.{encode_column, decode_column}
use investigate_lack_of_pgo.Delta.Fields.{
  Holds, write_fields-Holds, column_fields, encode_column_lem,
}
use investigate_lack_of_pgo.Delta.Sequence.{take_all}
use investigate_lack_of_pgo.Delta.RoundTrip.{IsDerived, Decoded, decode_column-Taken}
use investigate_lack_of_pgo.Delta.Copy.{Copied, copy_encoding, copy_encoding-Copied}

-- Fields stand wherever their bits do.
Holds-same :
    (fs : List Field) (m m' : ℕ → ℕ) (s p s' p' : ℕ)
    → ((k : ℕ) → k < total_width fs → bit_at m' s' (p' + k) ≡ bit_at m s (p + k))
    → Holds m s p fs
    → Holds m' s' p' fs
unfolding Holds total_width
Holds-same [] m m' s p s' p' same h = refl
Holds-same ((len, d) ∷ fs) m m' s p s' p' same (first, rest) = (
  λ j q. same j (omega arith) ∙ first j q,
  Holds-same fs m m' s (p + len) s' (p' + len)
      (λ k q.
        let left : p' + (len + k) ≡ p' + len + k = omega arith in
        let right : p + (len + k) ≡ p + len + k = omega arith in
        subst₂ (λ a b. bit_at m' s' a ≡ bit_at m s b) left right (same (len + k) (omega arith)))
      rest,
)

module _ (bits : ℕ) (orig_col col : Column) (fs : ℕ → ℕ) (v : IsDerived bits orig_col col) where
  -- from the fields of the column in its buffer
  stored-Decoded :
      (w e : BitWriter) (r : BitReader)
      → Copied w e.mem e.start (position e) (copy_encoding w e)
      → position e ≡ total_width (column_fields bits col)
      → Holds e.mem e.start 0 (column_fields bits col)
      → StandsAt (copy_encoding w e).mem w.start (position w) r
      → Decoded
          (copy_encoding w e).mem
          w.start
          (position (copy_encoding w e))
          fs
          col
          (decode_column bits orig_col r fs)
  stored-Decoded w e r c width h s =
      let mem = (copy_encoding w e).mem in
      let fields = column_fields bits col in
      let there : Holds mem w.start (position w) fields =
        Holds-same fields e.mem mem e.start 0 w.start (position w)
          (λ k q.
            let none : k ≡ 0 + k = omega arith in
            subst (λ a. bit_at mem w.start (position w + k) ≡ bit_at e.mem e.start a) none
              (c.copied k (omega (arith, width))))
          h in
      let taken = decode_column-Taken mem w.start fs col bits (position w) orig_col r v s there in
      let end : position w + total_width fields ≡ position (copy_encoding w e) =
        omega (arith, c.moved, width) in
      record {
        same = taken.cards ∙ take_all col;
        found = taken.found;
        stands =
            subst (λ q. StandsAt mem w.start q (decode_column bits orig_col r fs).bit_r) end
              taken.stands;
      }

-- A column that the encoder can store, encoded in a buffer of its own and copied behind what the
-- state's writer has written, is decoded by a reader that stands where the copy begins: the decoder
-- gives the column, has processed all its cards for the foundations, and stands behind the copy.
pub decode_column-copy_encoding :
    (bits : ℕ) (orig_col col : Column) (fs : ℕ → ℕ) (mem : ℕ → ℕ) (enc : ℕ) (w : BitWriter)
    (r : BitReader)
    → IsValid w
    → IsDerived bits orig_col col
    → StandsAt
        (copy_encoding w (encode_column bits (writer_init mem enc) col)).mem
        w.start
        (position w)
        r
    → Decoded
        (copy_encoding w (encode_column bits (writer_init mem enc) col)).mem
        w.start
        (position (copy_encoding w (encode_column bits (writer_init mem enc) col)))
        fs
        col
        (decode_column bits orig_col r fs)
decode_column-copy_encoding bits orig_col col fs mem enc w r valid v =
    let fresh = writer_init mem enc in
    let fields = column_fields bits col in
    let e = write_fields fresh fields in
    let written = write_fields-WrittenAll fields fresh (writer_init-IsValid mem enc) in
    subst
      (λ e.
        StandsAt (copy_encoding w e).mem w.start (position w) r
        → Decoded (copy_encoding w e).mem w.start (position (copy_encoding w e)) fs col
            (decode_column bits orig_col r fs))
      (sym (encode_column_lem bits col fresh))
      (stored-Decoded bits orig_col col fs v w e r (copy_encoding-Copied w e valid written.valid)
        (omega (arith, written.moved, position-writer_init mem enc))
        (write_fields-Holds fields fresh e.start 0 (writer_init-IsValid mem enc)
          (sym written.same_start) (position-writer_init mem enc)))
