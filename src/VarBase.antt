-- ===== src/VarBase.antt =====
-- var_base_writer.h and var_base_reader.h: items in varying bases, kept as one large number and
-- stored as its bytes, the lowest first. `init` and `release` only manage GMP's memory.
pub mod RoundTrip
mod Tests
use investigate_lack_of_pgo.Prelude.{
  ℕ, zero, suc, ◌+◌, ◌%◌, true, false, Option, some, none, List, [], ◌∷◌,
}
use investigate_lack_of_pgo.Gmp.{Gmp}
use mathlib.Core.Option

-- an item with its base
abbrev pub Item : Type 0
Item = ℕ × ℕ

module _ (g : Gmp) where
  open g use {
    Mpz, set_ui, add, addmul_ui, mul_ui, mul_2exp, fdiv_q_ui, fdiv_r_ui, fdiv_q_2exp, fdiv_r_2exp,
    equals_ui, get_ui,
  }

  -- fcs_var_base_writer_t; `remainder` is a scratch variable
  pub record VarBaseWriter : Type 0 where
    pub number : Mpz
    pub multiplier : Mpz

  pub writer_start : VarBaseWriter
  writer_start = record { number = set_ui 0; multiplier = set_ui 1 }

  pub writer_write : VarBaseWriter → ℕ → ℕ → VarBaseWriter
  writer_write w base item = record {
    number = addmul_ui w.number w.multiplier item;
    multiplier = mul_ui w.multiplier base;
  }

  -- The loop of fc_solve_var_base_writer_get_data: the bytes from here on, `none` without fuel.
  pub get_data_loop : ℕ → Mpz → Option (List ℕ)
  get_data_loop zero number = none
  get_data_loop (suc fuel) number =
      let byte = get_ui (fdiv_r_2exp number 8) % 256 in
      let rest = get_data_loop fuel (fdiv_q_2exp number 8) in
      elim (equals_ui number 0) [ true ↦ some [] | false ↦ Option.map (◌∷◌ byte) rest ]

  -- The loop of fc_solve_var_base_reader_start, at the given shift.
  pub reader_start_loop : Mpz → ℕ → List ℕ → Mpz
  reader_start_loop number shift_count [] = number
  reader_start_loop number shift_count (byte ∷ rest) =
      reader_start_loop (add number (mul_2exp (set_ui byte) shift_count)) (shift_count + 8) rest

  -- fcs_var_base_reader_t is its `data` field; the others are scratch variables
  pub reader_start : List ℕ → Mpz
  unfolding reader_start_loop
  reader_start bytes = reader_start_loop (set_ui 0) 0 bytes

  -- the item, and what is left
  pub reader_read : Mpz → ℕ → ℕ × Mpz
  reader_read number base = (get_ui (fdiv_r_ui number base), fdiv_q_ui number base)

  pub write_items : VarBaseWriter → List Item → VarBaseWriter
  write_items w [] = w
  write_items w ((base, item) ∷ items) = write_items (writer_write w base item) items

  pub read_items : Mpz → List ℕ → List ℕ
  read_items number [] = []
  read_items number (base ∷ bases) =
      let (item, rest) = reader_read number base in item ∷ read_items rest bases
