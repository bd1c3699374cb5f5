-- ===== src/VarBase/Tests.antt =====
-- Runs of the variable-base writer and reader, over the native numbers.
use investigate_lack_of_pgo.Prelude.{ℕ, ◌<◌, ◌≡◌, refl, arith, List, [], ◌∷◌, map, All, some}
use investigate_lack_of_pgo.Gmp.{native_gmp}
use investigate_lack_of_pgo.VarBase.{
  Item, writer_start, writer_write, get_data_loop, reader_start, read_items, write_items,
}
use investigate_lack_of_pgo.VarBase.RoundTrip.{base_of, item_of, number_of, read_items-write_items}

abbrev items : List Item
items = (6, 5) ∷ (13, 12) ∷ (2, 0) ∷ (52, 37) ∷ []

-- 5 + 6 * (12 + 13 * (0 + 2 * 37)) = 5849 = 217 + 256 * 22
written_bytes :
    get_data_loop native_gmp 3 (write_items native_gmp (writer_start native_gmp) items).number
    ≡ some (217 ∷ 22 ∷ [])
unfolding get_data_loop write_items writer_start writer_write
written_bytes = refl

read_items-write_items_example :
    (bytes : List ℕ) × (get_data_loop native_gmp 3
        (write_items native_gmp (writer_start native_gmp) items).number
      ≡ some bytes)
    × All (λ b. b < 256) bytes
    × (read_items native_gmp (reader_start native_gmp bytes) (map base_of items)
        ≡ map item_of items)
unfolding number_of
read_items-write_items_example =
    read_items-write_items native_gmp items 2 (omega arith) (omega arith)
