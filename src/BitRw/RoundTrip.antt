-- ===== src/BitRw/RoundTrip.antt =====
-- What the writer writes, the reader reads back.
use investigate_lack_of_pgo.Prelude.{
  ℕ, zero, suc, ◌+◌, ◌-◌, ◌*◌, ◌/◌, ◌%◌, ◌^◌, ◌≤◌, ◌<◌, ◌≡◌, refl, ◌∙◌, ap, ◌⊎◌, inl, inr, arith,
  bit_or,
}
use investigate_lack_of_pgo.Prelude.Bits.{bit_or_shift, mod_pow_step, two_pow_pos}
use native.Mathlib.Nat.{div-div-eq-div-mul, pow-succ', add-zero, add_assoc, mod-lt}
use native.Mathlib.Numerals.{add-one}
use investigate_lack_of_pgo.BitRw.{
  BitWriter, writer_write, BitReader, reader_init, advance, read_loop, reader_read, peek_bit,
}
use investigate_lack_of_pgo.BitRw.Stream.{
  bit_at, position, IsValid, put_round, put_round-IsValid, position-put_round, start-put_round,
  bit_at-put_round_self, bit_at-put_round_lt, mem-put_round_other,
}

-- What `writer_write w len d` leaves behind.
pub record Written (w : BitWriter) (len d : ℕ) (w' : BitWriter) : Type 0 where
  pub valid : IsValid w'
  pub same_start : w'.start ≡ w.start
  pub moved : position w' ≡ position w + len
  pub kept : (k : ℕ) → k < position w → bit_at w'.mem w.start k ≡ bit_at w.mem w.start k
  pub stored : (j : ℕ) → j < len → bit_at w'.mem w.start (position w + j) ≡ d / 2 ^ j % 2
  pub framed : (a : ℕ) → (a < w.current) ⊎ (w'.current < a) → w'.mem a ≡ w.mem a

pub div-pow_suc : (d j : ℕ) → d / 2 / 2 ^ j ≡ d / 2 ^ suc j
div-pow_suc d j = div-div-eq-div-mul d 2 (2 ^ j) ∙ rw pow-succ'

-- One round in front of a shorter write.
module _ (w : BitWriter) (d : ℕ) (v : IsValid w) {len : ℕ} {w' : BitWriter} where
  Written-put_round : Written (put_round w d) len (d / 2) w' → Written w (suc len) d w'
  Written-put_round rest = record {
    valid = rest.valid;
    same_start = rest.same_start ∙ begun;
    moved = rest.moved ∙ omega (arith, at);
    kept = λ k h. (rw begun at (rest.kept k (omega (arith, at)))) ∙ bit_at-put_round_lt w d v k h;
    stored = stored;
    framed = framed;
  }
    where
      begun : (put_round w d).start ≡ w.start
      begun = start-put_round w d v

      at : position (put_round w d) ≡ position w + 1
      at = position-put_round w d v

      stored : (j : ℕ) → j < suc len → bit_at w'.mem w.start (position w + j) ≡ d / 2 ^ j % 2
      stored zero h =
          let first = rest.kept (position w) (omega (arith, at)) in
          rw add-zero ((rw begun at first) ∙ bit_at-put_round_self w d v ∙ omega arith)
      stored (suc j) h =
          let later = rest.stored j (omega arith) in
          let next = put_round w d in
          let same : (next.current - w.start) * 8 + next.bit_in_char_idx + j ≡ position w + suc j =
            omega (arith, at, begun) in
          (rw (begun, same) at later) ∙ ap (λ q. q % 2) (div-pow_suc d j)

      forward : w.current ≤ (put_round w d).current
      forward = omega (arith, begun, at, v, put_round-IsValid w d v)

      onward : (put_round w d).current ≤ w'.current
      onward = omega (arith, rest.same_start, rest.moved, rest.valid, put_round-IsValid w d v)

      framed : (a : ℕ) → (a < w.current) ⊎ (w'.current < a) → w'.mem a ≡ w.mem a
      framed a (inl h) =
          rest.framed a (inl (omega (arith, forward))) ∙ mem-put_round_other w d v a (inl h)
      framed a (inr h) =
          rest.framed a (inr h) ∙ mem-put_round_other w d v a (inr (omega (arith, onward)))

-- `fc_solve_bit_writer_write` at any width: the low `len` bits of the data follow what was written
-- before, which stays, and no other byte changes.
pub writer_write-Written :
    (len d : ℕ) (w : BitWriter) → IsValid w → Written w len d (writer_write w len d)
unfolding writer_write
writer_write-Written zero d w v = record {
  valid = v;
  same_start = refl;
  moved = omega arith;
  kept = λ k h. refl;
  stored = λ j h. absurd (omega arith);
  framed = λ a h. refl;
}
writer_write-Written (suc len) d w v =
    Written-put_round w d v
      (writer_write-Written len (d / 2) (put_round w d) (put_round-IsValid w d v))

-- A reader of `mem` that stands at bit `p` from `start`.
pub record StandsAt (mem : ℕ → ℕ) (start p : ℕ) (r : BitReader) : Type 0 where
  pub same_mem : r.mem ≡ mem
  pub same_start : r.start ≡ start
  pub ordered : start ≤ r.current
  pub within : r.bit_in_char_idx < 8
  pub at : (r.current - start) * 8 + r.bit_in_char_idx ≡ p

module _ {mem : ℕ → ℕ} {start : ℕ} where
  pub reader_init-StandsAt : StandsAt mem start 0 (reader_init mem start)
  unfolding reader_init
  reader_init-StandsAt = record {
    same_mem = refl;
    same_start = refl;
    ordered = omega arith;
    within = omega arith;
    at = omega arith;
  }

  advance-StandsAt :
      {p : ℕ} {r : BitReader} → StandsAt mem start p r → StandsAt mem start (p + 1) (advance r)
  unfolding advance
  advance-StandsAt {p} {r} s = ground arith

  peek_bit-StandsAt :
      {p : ℕ} {r : BitReader} → StandsAt mem start p r → peek_bit r ≡ bit_at mem start p
  peek_bit-StandsAt {p} {r} s =
      let byte : start + p / 8 ≡ r.current = omega arith in
      let bit : p % 8 ≡ r.bit_in_char_idx = omega arith in rw (byte, bit, s.same_mem)

  -- The loop adds up the bits that it passes.
  read_loop_lem :
      (d base n idx m ret : ℕ) (r : BitReader)
      → idx + n ≡ m
      → ret ≡ d % 2 ^ idx
      → StandsAt mem start (base + idx) r
      → ((j : ℕ) → j < m → bit_at mem start (base + j) ≡ d / 2 ^ j % 2)
      → ((read_loop r idx ret n).0 ≡ d % 2 ^ m)
        × StandsAt mem start (base + m) (read_loop r idx ret n).1
  unfolding read_loop
  read_loop_lem d base zero idx m ret r e h s bits =
      let e' : idx ≡ m = omega arith in rw (← e') (h, s)
  read_loop_lem d base (suc n) idx m ret r e h s bits =
      let bit : peek_bit r ≡ d / 2 ^ idx % 2 = peek_bit-StandsAt s ∙ bits idx (omega arith) in
      let next : StandsAt mem start (base + (idx + 1)) (advance r) =
        rw (← add_assoc) (advance-StandsAt s) in
      let ret' : bit_or ret (peek_bit r * 2 ^ idx) ≡ d % 2 ^ (idx + 1) =
        rw (bit, h, add-one, mod_pow_step)
          (bit_or_shift idx (d % 2 ^ idx) (d / 2 ^ idx % 2) (mod-lt d (two_pow_pos idx))) in
      read_loop_lem d base n (idx + 1) m _ (advance r) (omega arith) ret' next bits

  -- `fc_solve_bit_reader_read` gives the low `len` bits of a number whose bits it passes.
  pub reader_read_lem :
      (d p len : ℕ) (r : BitReader)
      → StandsAt mem start p r
      → ((j : ℕ) → j < len → bit_at mem start (p + j) ≡ d / 2 ^ j % 2)
      → ((reader_read r len).0 ≡ d % 2 ^ len) × StandsAt mem start (p + len) (reader_read r len).1
  unfolding reader_read
  reader_read_lem d p len r s bits =
      read_loop_lem d p len 0 len 0 r (omega arith) (omega arith) (rw add-zero s) bits
