-- ===== src/BitRw/Fields.antt =====
-- A sequence of writes by one writer, and of reads by one reader, as the encoders of bit_rw.h's
-- clients make them. A field is a width and the data.
use investigate_lack_of_pgo.Prelude.{
  ℕ, ◌+◌, ◌/◌, ◌%◌, ◌^◌, ◌<◌, ◌≡◌, refl, ◌∙◌, ap, ap₂, subst, subst₂, arith, List, [], ◌∷◌, map,
}
use investigate_lack_of_pgo.BitRw.{
  BitWriter, writer_init, writer_write, BitReader, reader_init, reader_read,
}
use investigate_lack_of_pgo.BitRw.Stream.{bit_at, position, IsValid}
use investigate_lack_of_pgo.BitRw.RoundTrip.{
  writer_write-Written, StandsAt, reader_init-StandsAt, reader_read_lem,
}

abbrev pub Field : Type 0
Field = ℕ × ℕ

abbrev pub width : Field → ℕ
width (len, d) = len

-- what is left of the data in its width
abbrev pub stored_part : Field → ℕ
stored_part (len, d) = d % 2 ^ len

unfoldable pub write_fields : BitWriter → List Field → BitWriter
write_fields w [] = w
write_fields w ((len, d) ∷ fs) = write_fields (writer_write w len d) fs

unfoldable pub read_fields : BitReader → List ℕ → List ℕ × BitReader
read_fields r [] = ([], r)
read_fields r (len ∷ lens) =
    let (v, r') = reader_read r len in let (vs, r'') = read_fields r' lens in (v ∷ vs, r'')

unfoldable pub total_width : List Field → ℕ
total_width [] = 0
total_width ((len, d) ∷ fs) = len + total_width fs

-- The same bits, counted from an equal start.
pub same_bits :
    (m m' : ℕ → ℕ) {s s' : ℕ} (k : ℕ)
    → s ≡ s'
    → bit_at m s k ≡ bit_at m' s k
    → bit_at m s' k ≡ bit_at m' s' k
same_bits m m' k e h = subst (λ t. bit_at m t k ≡ bit_at m' t k) e h

-- A sequence of writes keeps the writer valid and the bits before it.
pub record WrittenAll (w : BitWriter) (fs : List Field) (w' : BitWriter) : Type 0 where
  pub valid : IsValid w'
  pub same_start : w'.start ≡ w.start
  pub moved : position w' ≡ position w + total_width fs
  pub kept : (k : ℕ) → k < position w → bit_at w'.mem w.start k ≡ bit_at w.mem w.start k

pub write_fields-WrittenAll :
    (fs : List Field) (w : BitWriter) → IsValid w → WrittenAll w fs (write_fields w fs)
unfolding write_fields total_width
write_fields-WrittenAll [] w v = record {
  valid = v;
  same_start = refl;
  moved = omega arith;
  kept = λ k h. refl;
}
write_fields-WrittenAll ((len, d) ∷ fs) w v =
    let first = writer_write-Written len d w v in
    let rest = write_fields-WrittenAll fs (writer_write w len d) first.valid in
    record {
      valid = rest.valid;
      same_start = rest.same_start ∙ first.same_start;
      moved = omega (arith, rest.moved, first.moved);
      kept = λ k h.
          same_bits (write_fields (writer_write w len d) fs).mem (writer_write w len d).mem k
            first.same_start (rest.kept k (omega (arith, first.moved)))
          ∙ first.kept k h;
    }

-- A reader at the place where the fields begin reads them all.
pub read_fields_lem :
    (fs : List Field) (w : BitWriter) (r : BitReader) (start p : ℕ)
    → IsValid w
    → w.start ≡ start
    → position w ≡ p
    → StandsAt (write_fields w fs).mem start p r
    → (read_fields r (map width fs)).0 ≡ map stored_part fs
unfolding write_fields read_fields
read_fields_lem [] w r start p v e q s = refl
read_fields_lem ((len, d) ∷ fs) w r start p v e q s =
    let w' = writer_write w len d in
    let first = writer_write-Written len d w v in
    let rest = write_fields-WrittenAll fs w' first.valid in
    let bits : (j : ℕ) → j < len → bit_at (write_fields w' fs).mem start (p + j) ≡ d / 2 ^ j % 2 =
      λ j h.
        subst₂ (λ b o. bit_at (write_fields w' fs).mem b (o + j) ≡ d / 2 ^ j % 2) e q
          (same_bits (write_fields w' fs).mem w'.mem (position w + j) first.same_start
              (rest.kept (position w + j) (omega (arith, first.moved)))
            ∙ first.stored j h) in
    let (value, next) = reader_read_lem d p len r s bits in
    let ih =
      read_fields_lem fs w' (reader_read r len).1 start (p + len) first.valid (first.same_start ∙ e)
        (first.moved ∙ ap (λ o. o + len) q) next in
    ap₂ ◌∷◌ value ih

pub writer_init-IsValid : (mem : ℕ → ℕ) (start : ℕ) → IsValid (writer_init mem start)
unfolding writer_init
writer_init-IsValid mem start = ground arith

pub start-writer_init : (mem : ℕ → ℕ) (start : ℕ) → (writer_init mem start).start ≡ start
unfolding writer_init
start-writer_init mem start = refl

pub position-writer_init : (mem : ℕ → ℕ) (start : ℕ) → position (writer_init mem start) ≡ 0
unfolding writer_init
position-writer_init mem start = omega arith

-- Fields written one after the other into a fresh buffer are read back in order, each cut to its
-- width, by a reader that starts at the buffer's beginning and asks for the same widths.
pub read_fields-write_fields :
    (mem : ℕ → ℕ) (start : ℕ) (fs : List Field)
    → (read_fields
        (reader_init (write_fields (writer_init mem start) fs).mem start)
        (map width fs)).0
      ≡ map stored_part fs
read_fields-write_fields mem start fs =
    read_fields_lem fs (writer_init mem start) _ start 0 (writer_init-IsValid mem start)
      (start-writer_init mem start) (position-writer_init mem start) reader_init-StandsAt
