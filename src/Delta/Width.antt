-- ===== src/Delta/Width.antt =====
-- fc_solve_delta_stater_alloc: how many bits the count of the initial column's cards gets.
use investigate_lack_of_pgo.Prelude.{
  ℕ, zero, suc, ◌+◌, ◌*◌, ◌^◌, ◌≤◌, ◌<◌, ◌≡◌, refl, arith, ltb, leb, if◌then◌else◌, true, false,
  Bool-cases, inl, inr, Option, some, none, length, ◌==◌, subst, sym,
}
use native.Mathlib.Nat.{pow-suc}
use native.Mathlib.Numerals.{add-one}
use investigate_lack_of_pgo.State.{Column}
use investigate_lack_of_pgo.Delta.{orig_num_cards}
use investigate_lack_of_pgo.Delta.Chain.{orig_num_cards-le}

-- the loop over the first `n` columns of the initial state
unfoldable pub max_num_cards : (ℕ → Column) → ℕ → ℕ
unfolding orig_num_cards
max_num_cards columns zero = 0
max_num_cards columns (suc n) =
    let before = max_num_cards columns n in
    let num_cards = orig_num_cards (columns n) in if ltb before num_cards then num_cards else before

-- The loop that counts the bits, `none` without fuel, and where `bitmask <<= 1` overflows an `int`.
unfoldable pub count_bits : ℕ → ℕ → ℕ → ℕ → Option ℕ
count_bits zero bitmask num_bits max_num = none
count_bits (suc fuel) bitmask num_bits max_num =
    let rest = count_bits fuel (bitmask * 2) (num_bits + 1) max_num in
    let shifted = if ltb (bitmask * 2) (2 ^ 31) then rest else none in
    if leb bitmask max_num then shifted else some num_bits

-- bits_per_orig_cards_in_column, with fuel for the bits of an `int`
unfoldable pub bits_per_orig_cards : (ℕ → Column) → ℕ → Option ℕ
unfolding max_num_cards count_bits
bits_per_orig_cards columns num_columns = count_bits 32 1 0 (max_num_cards columns num_columns)

max_num_cards-le :
    (columns : ℕ → Column) (n i : ℕ) → i < n → orig_num_cards (columns i) ≤ max_num_cards columns n
unfolding max_num_cards
max_num_cards-le columns zero i h = absurd (omega arith)
max_num_cards-le columns (suc n) i h = elim (Bool-cases (i == n)) [
  | inl e ↦
      let last : i ≡ n = ground arith in
      subst (λ k. orig_num_cards (columns k) ≤ max_num_cards columns (suc n)) (sym last)
        (ground arith)
  | inr e ↦ ground (arith, max_num_cards-le columns n i (ground arith))
]

max_num_cards-lt :
    (columns : ℕ → Column) (n bound : ℕ)
    → 1 ≤ bound
    → ((i : ℕ) → i < n → length (columns i) < bound)
    → max_num_cards columns n < bound
unfolding max_num_cards
max_num_cards-lt columns zero bound p h = p
max_num_cards-lt columns (suc n) bound p h = ground (
  arith,
  max_num_cards-lt columns n bound p (λ i q. h i (omega arith)),
  h n (omega arith),
  orig_num_cards-le (columns n),
)

-- The bits are enough for the number, and one bit less is not.
pub record IsWidth (max_num bits : ℕ) : Type 0 where
  pub enough : max_num < 2 ^ bits
  pub least : (b : ℕ) → b < bits → 2 ^ b ≤ max_num

next_mask : (k : ℕ) → 2 ^ (k + 1) ≡ 2 ^ k * 2
next_mask k = rw (add-one, pow-suc) refl

count_bits-IsWidth :
    (fuel num_bits max_num bitmask : ℕ)
    → bitmask ≡ 2 ^ num_bits
    → max_num < 2 ^ (num_bits + fuel)
    → max_num < 2 ^ 30
    → ((b : ℕ) → b < num_bits → 2 ^ b ≤ max_num)
    → (bits : ℕ) × (count_bits (suc fuel) bitmask num_bits max_num ≡ some bits)
      × IsWidth max_num bits
unfolding count_bits
count_bits-IsWidth zero num_bits max_num bitmask e room small below =
    let here : num_bits + 0 ≡ num_bits = omega arith in
    let room' : max_num < 2 ^ num_bits = subst (λ k. max_num < 2 ^ k) here room in
    let stops : leb bitmask max_num ≡ false = ground (arith, e, room') in
    (num_bits, rw stops refl, record { enough = room'; least = below })
count_bits-IsWidth (suc fuel) num_bits max_num bitmask e room small below =
    elim (Bool-cases (leb bitmask max_num)) [
      | inl goes ↦
          let more : num_bits + suc fuel ≡ num_bits + 1 + fuel = omega arith in
          let reached : 2 ^ num_bits ≤ max_num = ground (arith, e) in
          let (bits, found, width) =
            count_bits-IsWidth fuel (num_bits + 1) max_num (bitmask * 2)
              (omega (arith, e, next_mask num_bits)) (subst (λ k. max_num < 2 ^ k) more room) small
              (λ b h. elim (Bool-cases (b == num_bits)) [
                | inl q ↦
                    let last : num_bits ≡ b = ground arith in
                    subst (λ k. 2 ^ k ≤ max_num) last reached
                | inr q ↦ below b (ground arith)
              ]) in
          let fits : ltb (bitmask * 2) (2 ^ 31) ≡ true = ground (arith, goes) in
          (bits, rw (goes, fits) found, width)
      | inr stops ↦
          let room' : max_num < 2 ^ num_bits = ground (arith, e) in
          (num_bits, rw stops refl, record { enough = room'; least = below })
    ]

-- Where the columns of the initial state have fewer than two to the 30th cards, the loop ends, with
-- no overflow, and
-- `bits_per_orig_cards_in_column` is the least number of bits that can hold the count of each
-- column's initial cards: every count fits, and no smaller width holds their maximum.
pub bits_per_orig_cards-IsWidth :
    (columns : ℕ → Column) (num_columns : ℕ)
    → ((i : ℕ) → i < num_columns → length (columns i) < 2 ^ 30)
    → (bits : ℕ) × (bits_per_orig_cards columns num_columns ≡ some bits)
      × IsWidth (max_num_cards columns num_columns) bits
      × ((i : ℕ) → i < num_columns → orig_num_cards (columns i) < 2 ^ bits)
unfolding bits_per_orig_cards
bits_per_orig_cards-IsWidth columns num_columns h =
    let max_num = max_num_cards columns num_columns in
    let small : max_num < 2 ^ 30 = max_num_cards-lt columns num_columns (2 ^ 30) (omega arith) h in
    let (bits, found, width) =
      count_bits-IsWidth 31 0 max_num 1 (omega arith) (omega (arith, small)) small
        (λ b q. absurd (omega arith)) in
    (
      bits,
      found,
      width,
      λ i k. omega (arith, width.enough, max_num_cards-le columns num_columns i k),
    )
