-- ===== src/Delta/Copy.antt =====
-- The end of fc_solve_delta_stater_encode_composite: the bits of a column, encoded in a buffer of its
-- own, are written behind those of the state.
use investigate_lack_of_pgo.Prelude.{
  ℕ, zero, suc, ◌+◌, ◌-◌, ◌*◌, ◌/◌, ◌%◌, ◌^◌, ◌≤◌, ◌<◌, ◌≡◌, refl, ◌∙◌, sym, ap₂, subst, subst₂,
  arith, ltb, Bool-cases, inl, inr,
}
use investigate_lack_of_pgo.BitRw.{BitWriter, writer_write}
use investigate_lack_of_pgo.BitRw.Stream.{bit_at, position, IsValid}
use investigate_lack_of_pgo.BitRw.Fields.{same_bits}
use investigate_lack_of_pgo.BitRw.RoundTrip.{Written, writer_write-Written}

-- `n` bytes from `enc` on
unfoldable pub copy_bytes : BitWriter → (ℕ → ℕ) → ℕ → ℕ → BitWriter
copy_bytes w mem enc zero = w
copy_bytes w mem enc (suc n) = copy_bytes (writer_write w 8 (mem enc)) mem (enc + 1) n

-- The encoded column is what its writer `col_enc` has left: `enc` is where that started, `end` where
-- it is.
unfoldable pub copy_encoding : BitWriter → BitWriter → BitWriter
unfolding copy_bytes
copy_encoding bit_w col_enc =
    writer_write (copy_bytes bit_w col_enc.mem col_enc.start (col_enc.current - col_enc.start))
      col_enc.bit_in_char_idx (col_enc.mem col_enc.current)

-- The first `len` bits from `enc` on stand behind what `w` had written.
pub record Copied (w : BitWriter) (mem : ℕ → ℕ) (enc len : ℕ) (w' : BitWriter) : Type 0 where
  pub valid : IsValid w'
  pub same_start : w'.start ≡ w.start
  pub moved : position w' ≡ position w + len
  pub kept : (k : ℕ) → k < position w → bit_at w'.mem w.start k ≡ bit_at w.mem w.start k
  pub copied : (k : ℕ) → k < len → bit_at w'.mem w.start (position w + k) ≡ bit_at mem enc k

byte_bit : (mem : ℕ → ℕ) (enc j : ℕ) → j < 8 → bit_at mem enc j ≡ mem enc / 2 ^ j % 2
byte_bit mem enc j h =
    let address : enc + j / 8 ≡ enc = omega arith in
    let shift : j % 8 ≡ j = omega arith in ap₂ (λ a s. mem a / 2 ^ s % 2) address shift

later_bit : (mem : ℕ → ℕ) (enc k : ℕ) → 8 ≤ k → bit_at mem (enc + 1) (k - 8) ≡ bit_at mem enc k
later_bit mem enc k h =
    let address : enc + 1 + (k - 8) / 8 ≡ enc + k / 8 = omega arith in
    let shift : (k - 8) % 8 ≡ k % 8 = omega arith in ap₂ (λ a s. mem a / 2 ^ s % 2) address shift

-- A write in front of a shorter copy, of a byte or of a part of one.
module _ (w : BitWriter) (mem : ℕ → ℕ) (enc n : ℕ) (w' : BitWriter)
    (first : Written w 8 (mem enc) (writer_write w 8 (mem enc)))
    (rest : Copied (writer_write w 8 (mem enc)) mem (enc + 1) n w') where
  onward :
      (k : ℕ)
      → k < position w + 8
      → bit_at w'.mem w.start k ≡ bit_at (writer_write w 8 (mem enc)).mem w.start k
  onward k h =
      same_bits w'.mem (writer_write w 8 (mem enc)).mem k first.same_start
        (rest.kept k (omega (arith, first.moved)))

  copied_bit : (k : ℕ) → k < 8 + n → bit_at w'.mem w.start (position w + k) ≡ bit_at mem enc k
  copied_bit k h = elim (Bool-cases (ltb k 8)) [
    | inl low ↦
        onward (position w + k) (ground arith)
        ∙ first.stored k (ground arith)
        ∙ sym (byte_bit mem enc k (ground arith))
    | inr high ↦
        let far : 8 ≤ k = ground arith in
        let at : position (writer_write w 8 (mem enc)) + (k - 8) ≡ position w + k =
          omega (arith, first.moved) in
        subst₂ (λ s q. bit_at w'.mem s q ≡ bit_at mem enc k) first.same_start at
          (rest.copied (k - 8) (omega arith) ∙ later_bit mem enc k far)
  ]

  Copied-writer_write : Copied w mem enc (8 + n) w'
  Copied-writer_write = record {
    valid = rest.valid;
    same_start = rest.same_start ∙ first.same_start;
    moved = omega (arith, rest.moved, first.moved);
    kept = λ k h. onward k (omega arith) ∙ first.kept k h;
    copied = copied_bit;
  }

copy_bytes-Copied :
    (n enc : ℕ) (mem : ℕ → ℕ) (w : BitWriter)
    → IsValid w
    → Copied w mem enc (8 * n) (copy_bytes w mem enc n)
unfolding copy_bytes
copy_bytes-Copied zero enc mem w v = record {
  valid = v;
  same_start = refl;
  moved = omega arith;
  kept = λ k h. refl;
  copied = λ k h. absurd (omega arith);
}
copy_bytes-Copied (suc n) enc mem w v =
    let first = writer_write-Written 8 (mem enc) w v in
    let w1 = writer_write w 8 (mem enc) in
    let length : 8 + 8 * n ≡ 8 * suc n = omega arith in
    subst (λ l. Copied w mem enc l (copy_bytes w1 mem (enc + 1) n)) length
      (Copied-writer_write w mem enc (8 * n) (copy_bytes w1 mem (enc + 1) n) first
        (copy_bytes-Copied n (enc + 1) mem w1 first.valid))

-- the part of a byte at the end
module _ (w e b : BitWriter) (v : IsValid e)
    (c : Copied w e.mem e.start (8 * (e.current - e.start)) b) where
  last_write :
      Written b e.bit_in_char_idx
        (e.mem e.current)
        (writer_write b e.bit_in_char_idx (e.mem e.current))
  last_write = writer_write-Written e.bit_in_char_idx (e.mem e.current) b c.valid

  last_bit :
      (k : ℕ)
      → 8 * (e.current - e.start) ≤ k
      → k < position e
      → e.mem e.current / 2 ^ (k - 8 * (e.current - e.start)) % 2 ≡ bit_at e.mem e.start k
  last_bit k h q =
      let address : e.current ≡ e.start + k / 8 = omega (arith, v.ordered, v.within) in
      let shift : k - 8 * (e.current - e.start) ≡ k % 8 = omega (arith, v.within) in
      ap₂ (λ a s. e.mem a / 2 ^ s % 2) address shift

  end-Copied :
      Copied w e.mem e.start (position e) (writer_write b e.bit_in_char_idx (e.mem e.current))
  end-Copied =
      let w' = writer_write b e.bit_in_char_idx (e.mem e.current) in
      let bytes = 8 * (e.current - e.start) in
      let back : (k : ℕ)
          → k < position w + bytes
          → bit_at w'.mem w.start k ≡ bit_at b.mem w.start k =
        λ k h. same_bits w'.mem b.mem k c.same_start (last_write.kept k (omega (arith, c.moved))) in
      record {
        valid = last_write.valid;
        same_start = last_write.same_start ∙ c.same_start;
        moved = omega (arith, last_write.moved, c.moved);
        kept = λ k h. back k (omega arith) ∙ c.kept k h;
        copied = λ k h. elim (Bool-cases (ltb k bytes)) [
          | inl low ↦ back (position w + k) (ground arith) ∙ c.copied k (ground arith)
          | inr high ↦
              let far : bytes ≤ k = ground arith in
              let at : position b + (k - bytes) ≡ position w + k = omega (arith, c.moved) in
              subst₂ (λ s q. bit_at w'.mem s q ≡ bit_at e.mem e.start k) c.same_start at
                (last_write.stored (k - bytes) (omega arith) ∙ last_bit k far h)
        ];
      }

-- The bits of an encoded column, all of them and nothing else, are written behind what the state's
-- writer has written, which stays.
pub copy_encoding-Copied :
    (w e : BitWriter)
    → IsValid w
    → IsValid e
    → Copied w e.mem e.start (position e) (copy_encoding w e)
unfolding copy_encoding
copy_encoding-Copied w e v u =
    end-Copied w e (copy_bytes w e.mem e.start (e.current - e.start)) u
      (copy_bytes-Copied (e.current - e.start) e.start e.mem w v)
