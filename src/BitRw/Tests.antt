-- ===== src/BitRw/Tests.antt =====
-- Runs of bit_rw.h's functions at concrete inputs.
use investigate_lack_of_pgo.Prelude.{ℕ, ◌≡◌, refl, List, [], ◌∷◌, map}
use investigate_lack_of_pgo.BitRw.{writer_init, writer_write, reader_init, reader_read}
use investigate_lack_of_pgo.BitRw.RoundTrip.{Written, writer_write-Written}
use investigate_lack_of_pgo.BitRw.Fields.{
  Field, width, stored_part, write_fields, read_fields, read_fields-write_fields,
  writer_init-IsValid,
}

abbrev dirty : ℕ → ℕ
dirty a = 255

abbrev fields : List Field
fields = (4, 11) ∷ (6, 37) ∷ (1, 1) ∷ (3, 13) ∷ []

-- 11 + 37 * 16 + 1 * 1024 + 5 * 2048, low byte first; the last byte keeps its free bits clear
written_bytes :
    map (write_fields (writer_init dirty 7) fields).mem (7 ∷ 8 ∷ 9 ∷ []) ≡ 91 ∷ 46 ∷ 255 ∷ []
unfolding write_fields writer_write writer_init
written_bytes = refl

read_back :
    (read_fields
      (reader_init (write_fields (writer_init dirty 7) fields).mem 7)
      (4 ∷ 6 ∷ 1 ∷ 3 ∷ [])).0
    ≡ 11 ∷ 37 ∷ 1 ∷ 5 ∷ []
unfolding read_fields write_fields writer_write writer_init reader_init reader_read
read_back = refl

read_fields-write_fields_example :
    (read_fields
      (reader_init (write_fields (writer_init dirty 7) fields).mem 7)
      (map width fields)).0
    ≡ map stored_part fields
read_fields-write_fields_example = read_fields-write_fields dirty 7 fields

writer_write-Written_example :
    Written (writer_init dirty 7) 5 19 (writer_write (writer_init dirty 7) 5 19)
writer_write-Written_example =
    writer_write-Written 5 19 (writer_init dirty 7) (writer_init-IsValid dirty 7)
