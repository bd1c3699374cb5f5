-- ===== src/VarBase/RoundTrip.antt =====
-- The items written come back from the bytes.
use investigate_lack_of_pgo.Prelude.{
  ℕ, zero, suc, ◌+◌, ◌*◌, ◌/◌, ◌%◌, ◌^◌, ◌<◌, ◌≡◌, refl, ◌∙◌, ap, ap₂, some, List, [], ◌∷◌, true,
  false, arith, All, map, Bool-cases, inl, inr,
}
use native.Mathlib.Numerals.{towards_suc}
use native.Mathlib.Nat.{
  pow-suc, add-mul-div_left, add-mul-mod_self_left, div-eq_of_lt, mod-eq_of_lt,
}
use investigate_lack_of_pgo.Gmp.{Gmp}
use investigate_lack_of_pgo.VarBase.{
  VarBaseWriter, Item, writer_start, writer_write, get_data_loop, reader_start_loop, reader_start,
  reader_read, write_items, read_items,
}

-- The asserts of fc_solve_var_base_writer_write; a base is an `int`.
abbrev pub IsItem : Item → Type 0
IsItem (base, item) = (item < base) × (base < 2 ^ 31)

-- the mixed-base number of the items, the first one lowest
unfoldable pub number_of : List Item → ℕ
number_of [] = 0
number_of ((base, item) ∷ items) = item + base * number_of items

pub number_of_bytes : List ℕ → ℕ
number_of_bytes [] = 0
number_of_bytes (b ∷ bytes) = b + 256 * number_of_bytes bytes

abbrev pub base_of : Item → ℕ
base_of (base, item) = base

abbrev pub item_of : Item → ℕ
item_of (base, item) = item

pow_byte : (k : ℕ) → 2 ^ (k + 8) ≡ 2 ^ k * 256
pow_byte k = simp towards_suc (simp pow-suc (omega arith))

module _ (g : Gmp) where
  open g use {Mpz, value}

  -- The writer's number after the writes.
  pub write_items_lem :
      (items : List Item) (w : VarBaseWriter g)
      → value (write_items g w items).number ≡ value w.number + value w.multiplier * number_of items
  unfolding write_items writer_write number_of
  write_items_lem [] w = omega arith
  write_items_lem ((base, item) ∷ items) w = omega (
    arith,
    write_items_lem items (writer_write g w base item),
    g.addmul_ui_value w.number w.multiplier item,
    ap (λ t. t * number_of items) (g.mul_ui_value w.multiplier base),
  )

  -- The low byte and the rest of a number.
  byte_value : (n : Mpz) → g.get_ui (g.fdiv_r_2exp n 8) % 256 ≡ value n % 256
  byte_value n = omega (arith, g.get_ui_value (g.fdiv_r_2exp n 8), g.fdiv_r_2exp_value n 8)

  is_zero : (n : Mpz) → g.equals_ui n 0 ≡ true → value n ≡ 0
  is_zero n e = ground (arith, g.equals_ui_value n 0)

  not_zero : (n : Mpz) → g.equals_ui n 0 ≡ false → 0 < value n
  not_zero n e = ground (arith, g.equals_ui_value n 0)

  -- With fuel for its bytes and one round more, the loop ends; the bytes stand for the number.
  pub get_data_loop_lem :
      (fuel : ℕ) (n : Mpz)
      → value n < 256 ^ fuel
      → (bytes : List ℕ) × (get_data_loop g (suc fuel) n ≡ some bytes)
        × (number_of_bytes bytes ≡ value n)
        × All (λ b. b < 256) bytes
  unfolding get_data_loop number_of_bytes
  get_data_loop_lem zero n h =
      let e : g.equals_ui n 0 ≡ true = ground (arith, g.equals_ui_value n 0) in
      ([], rw (e, get_data_loop), omega (arith, is_zero n e), tt)
  get_data_loop_lem (suc fuel) n h = elim (Bool-cases (g.equals_ui n 0)) [
    | inl e ↦ ([], rw (e, get_data_loop), omega (arith, is_zero n e), tt)
    | inr e ↦
        let rest = g.fdiv_q_2exp n 8 in
        let quotient : value rest ≡ value n / 256 = omega (arith, g.fdiv_q_2exp_value n 8) in
        let (bytes, found, number, small) =
          get_data_loop_lem fuel rest (omega (arith, quotient, pow-suc 256 fuel)) in
        (
          (value n % 256) ∷ bytes,
          rw (e, get_data_loop) (rw (found, byte_value n)),
          omega (arith, number, quotient),
          (omega arith, small),
        )
  ]

  -- The reader's number is that of the bytes, each at its shift.
  reader_start_loop_lem :
      (bytes : List ℕ) (n : Mpz) (shift : ℕ)
      → value (reader_start_loop g n shift bytes) ≡ value n + number_of_bytes bytes * 2 ^ shift
  unfolding reader_start_loop number_of_bytes
  reader_start_loop_lem [] n shift = omega arith
  reader_start_loop_lem (b ∷ bytes) n shift =
      let placed = g.mul_2exp (g.set_ui b) shift in
      omega (
        arith,
        reader_start_loop_lem bytes (g.add n placed) (shift + 8),
        g.add_value n placed,
        g.mul_2exp_value (g.set_ui b) shift,
        ap (λ t. t * 2 ^ shift) (g.set_ui_value b),
        ap (λ t. number_of_bytes bytes * t) (pow_byte shift),
      )

  pub reader_start_lem : (bytes : List ℕ) → value (reader_start g bytes) ≡ number_of_bytes bytes
  unfolding reader_start
  reader_start_lem bytes =
      omega (arith, reader_start_loop_lem bytes (g.set_ui 0) 0, g.set_ui_value 0)

  -- Reading in the bases of the items takes their number apart.
  pub read_items_lem :
      (items : List Item) (n : Mpz)
      → All IsItem items
      → value n ≡ number_of items
      → read_items g n (map base_of items) ≡ map item_of items
  unfolding read_items reader_read number_of
  read_items_lem [] n h e = refl
  read_items_lem ((base, item) ∷ items) n ((low, small), hs) e =
      let rest = g.fdiv_q_ui n base in
      let remainder : value (g.fdiv_r_ui n base) ≡ item =
        g.fdiv_r_ui_value n base (omega arith)
        ∙ ap (λ t. t % base) e
        ∙ add-mul-mod_self_left item base (number_of items)
        ∙ mod-eq_of_lt low in
      let read : g.get_ui (g.fdiv_r_ui n base) ≡ item =
        omega (arith, g.get_ui_value (g.fdiv_r_ui n base), remainder) in
      let quotient : value rest ≡ number_of items =
        g.fdiv_q_ui_value n base (omega arith)
        ∙ ap (λ t. t / base) e
        ∙ add-mul-div_left item (number_of items) (omega arith)
        ∙ omega (arith, div-eq_of_lt low) in
      ap₂ ◌∷◌ read (read_items_lem items rest hs quotient)

  -- What a fresh writer has written can be taken out as bytes, with fuel for their number, and a
  -- reader of those bytes that asks for the same bases reads the items.
  pub read_items-write_items :
      (items : List Item) (fuel : ℕ)
      → All IsItem items
      → number_of items < 256 ^ fuel
      → (bytes : List ℕ) × (get_data_loop g (suc fuel) (write_items g (writer_start g) items).number
          ≡ some bytes)
        × All (λ b. b < 256) bytes
        × (read_items g (reader_start g bytes) (map base_of items) ≡ map item_of items)
  unfolding writer_start
  read_items-write_items items fuel h room =
      let written = (write_items g (writer_start g) items).number in
      let one_times = ap (λ t. t * number_of items) (g.set_ui_value 1) in
      let number : value written ≡ number_of items =
        omega (arith, write_items_lem items (writer_start g), g.set_ui_value 0, one_times) in
      let (bytes, found, same, small) = get_data_loop_lem fuel written (omega (arith, number)) in
      let start = reader_start_lem bytes ∙ same ∙ number in
      (bytes, found, small, read_items_lem items (reader_start g bytes) h start)
