-- ===== src/BitRw.antt =====
-- bit_rw.h: the bit writer and the bit reader. Memory is a function from addresses to bytes; a
-- pointer is an address. `fc_solve_bit_data_t` is an `int`: the values written are non-negative.
pub mod Stream
pub mod RoundTrip
pub mod Fields
mod Tests
use investigate_lack_of_pgo.Prelude.{
  ℕ, zero, suc, ◌+◌, ◌*◌, ◌/◌, ◌%◌, ◌^◌, bit_or, update, ◌==◌, if◌then◌else◌,
}

-- NUM_BITS_IN_BYTES
abbrev pub num_bits_in_bytes : ℕ
num_bits_in_bytes = 8

-- fc_solve_bit_writer_t, with the memory that it points into
pub record BitWriter : Type 0 where
  pub mem : ℕ → ℕ
  pub current : ℕ
  pub bit_in_char_idx : ℕ
  pub start : ℕ

pub writer_init : (ℕ → ℕ) → ℕ → BitWriter
writer_init mem start = record {
  mem = update mem start 0;
  current = start;
  bit_in_char_idx = 0;
  start = start;
}

-- `*current |= ((data & 0x1) << (bit_in_char_idx++))`
pub put_bit : BitWriter → ℕ → BitWriter
put_bit w d = record w {
  mem = update w.mem w.current (bit_or (w.mem w.current) (d % 2 * 2 ^ w.bit_in_char_idx) % 256);
  bit_in_char_idx = w.bit_in_char_idx + 1;
}

-- `if (bit_in_char_idx == NUM_BITS_IN_BYTES) { *(++current) = 0; bit_in_char_idx = 0; }`
pub next_byte : BitWriter → BitWriter
next_byte w =
    if w.bit_in_char_idx == num_bits_in_bytes
    then record w {
      mem = update w.mem (w.current + 1) 0;
      current = w.current + 1;
      bit_in_char_idx = 0;
    }
    else w

-- the loop of fc_solve_bit_writer_write
unfoldable pub writer_write : BitWriter → ℕ → ℕ → BitWriter
unfolding put_bit next_byte
writer_write w zero d = w
writer_write w (suc len) d = writer_write (next_byte (put_bit w d)) len (d / 2)

-- fc_solve_bit_reader_t; the reader never writes to its memory
pub record BitReader : Type 0 where
  pub mem : ℕ → ℕ
  pub current : ℕ
  pub bit_in_char_idx : ℕ
  pub start : ℕ

pub reader_init : (ℕ → ℕ) → ℕ → BitReader
reader_init mem start = record { mem = mem; current = start; bit_in_char_idx = 0; start = start }

-- the bit under the reader
abbrev pub peek_bit : BitReader → ℕ
peek_bit r = r.mem r.current / 2 ^ r.bit_in_char_idx % 2

pub advance : BitReader → BitReader
advance r =
    if r.bit_in_char_idx + 1 == num_bits_in_bytes
    then record r { current = r.current + 1; bit_in_char_idx = 0 }
    else record r { bit_in_char_idx = r.bit_in_char_idx + 1 }

-- the loop of fc_solve_bit_reader_read, from `idx`, with `ret` so far and `n` rounds left
unfoldable pub read_loop : BitReader → ℕ → ℕ → ℕ → ℕ × BitReader
unfolding advance
read_loop r idx ret zero = (ret, r)
read_loop r idx ret (suc n) = read_loop (advance r) (idx + 1) (bit_or ret (peek_bit r * 2 ^ idx)) n

unfoldable pub reader_read : BitReader → ℕ → ℕ × BitReader
unfolding read_loop
reader_read r len = read_loop r 0 0 len
