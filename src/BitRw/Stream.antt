-- ===== src/BitRw/Stream.antt =====
-- What a writer has written, as a sequence of bits.
use investigate_lack_of_pgo.Prelude.{
  ℕ, ◌+◌, ◌-◌, ◌*◌, ◌/◌, ◌%◌, ◌^◌, ◌≤◌, ◌<◌, ◌≡◌, refl, ◌⊎◌, ◌&&◌, true, arith, bit_or, ltb, ◌==◌,
  ==_iff, all_below, all_below_sound, both_true, ltb→lt,
}
use investigate_lack_of_pgo.BitRw.{BitWriter, put_bit, next_byte}

-- bit `k` of the memory from `start` on, the lowest bit of a byte first
abbrev pub bit_at : (ℕ → ℕ) → ℕ → ℕ → ℕ
bit_at mem start k = mem (start + k / 8) / 2 ^ (k % 8) % 2

-- how many bits a writer has written
abbrev pub position : BitWriter → ℕ
position w = (w.current - w.start) * 8 + w.bit_in_char_idx

pub record IsValid (w : BitWriter) : Type 0 where
  pub ordered : w.start ≤ w.current
  pub within : w.bit_in_char_idx < 8
  pub clean : w.mem w.current < 2 ^ w.bit_in_char_idx

-- One bit `b` put above the `i` bits of `m`: the byte's laws, each checked over all values.
abbrev put : ℕ → ℕ → ℕ → ℕ
put i m b = bit_or m (b * 2 ^ i) % 256

put_table :
    all_below 8 (λ i. all_below (2 ^ i) (λ m. all_below 2 (λ b.
      (ltb (put i m b) (2 ^ (i + 1)) && (put i m b / 2 ^ i % 2 == b))
      && all_below i (λ j. put i m b / 2 ^ j % 2 == m / 2 ^ j % 2))))
    ≡ true
unfolding all_below
put_table = refl

put_laws :
    (i m b j : ℕ)
    → i < 8
    → m < 2 ^ i
    → b < 2
    → (put i m b < 2 ^ (i + 1))
      × (put i m b / 2 ^ i % 2 ≡ b)
      × (j < i → put i m b / 2 ^ j % 2 ≡ m / 2 ^ j % 2)
put_laws i m b j hi hm hb =
    let row = all_below_sound 8 i _ put_table hi in
    let cell = all_below_sound 2 b _ (all_below_sound (2 ^ i) m _ row hm) hb in
    let (own, others) = both_true _ _ cell in
    let (low, self) = both_true _ _ own in
    (ltb→lt _ _ low, (==_iff _ _).0 self, λ hj. (==_iff _ _).0 (all_below_sound i j _ others hj))

abbrev pub put_round : BitWriter → ℕ → BitWriter
put_round w d = next_byte (put_bit w d)

module _ (w : BitWriter) (d : ℕ) (v : IsValid w) where
  pub put_round-IsValid : IsValid (put_round w d)
  unfolding next_byte put_bit
  put_round-IsValid =
      ground (
        arith,
        put_laws w.bit_in_char_idx (w.mem w.current) (d % 2) 0 v.within v.clean (omega arith),
      )

  pub position-put_round : position (put_round w d) ≡ position w + 1
  unfolding next_byte put_bit
  position-put_round = ground (arith, v.ordered, v.within)

  pub start-put_round : (put_round w d).start ≡ w.start
  unfolding next_byte put_bit
  start-put_round = ground arith

  -- The bit goes to the writer's position.
  pub bit_at-put_round_self : bit_at (put_round w d).mem w.start (position w) ≡ d % 2
  unfolding next_byte put_bit
  bit_at-put_round_self =
      let byte : w.start + position w / 8 ≡ w.current = omega (arith, v.ordered, v.within) in
      let bit : position w % 8 ≡ w.bit_in_char_idx = omega (arith, v.ordered, v.within) in
      rw (byte, bit)
        (ground (
          arith,
          put_laws w.bit_in_char_idx (w.mem w.current) (d % 2) 0 v.within v.clean (omega arith),
        ))

  -- The bits before it stay as they are.
  pub bit_at-put_round_lt :
      (k : ℕ) → k < position w → bit_at (put_round w d).mem w.start k ≡ bit_at w.mem w.start k
  unfolding next_byte put_bit
  bit_at-put_round_lt k h = ground (
    arith,
    v.ordered,
    put_laws w.bit_in_char_idx (w.mem w.current) (d % 2) (k % 8) v.within v.clean (omega arith),
  )

  -- Only the byte under the writer and the one after it can change.
  pub mem-put_round_other :
      (a : ℕ) → (a < w.current) ⊎ ((put_round w d).current < a) → (put_round w d).mem a ≡ w.mem a
  unfolding next_byte put_bit
  mem-put_round_other a h = ground arith
