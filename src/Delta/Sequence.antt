-- ===== src/Delta/Sequence.antt =====
-- The decoder's loops over the cards of a column.
use investigate_lack_of_pgo.Prelude.{
  ℕ, zero, suc, ◌+◌, ◌-◌, ◌≤◌, ◌<◌, ◌≡◌, refl, ◌∙◌, sym, ap, ap₂, subst, subst₂, arith, [], ◌∷◌,
  ◌++◌, length, if◌then◌else◌, ◌==◌, true, false, Bool-cases, inl, inr, take, length-take,
}
use native.Mathlib.Nat.{mod-eq_of_lt}
use native.Mathlib.Numerals.{add-one}
use investigate_lack_of_pgo.Card.{Card, is_parent_card}
use investigate_lack_of_pgo.State.{Column, col_get_card, col_top}
use investigate_lack_of_pgo.BitRw.{BitReader, reader_read}
use investigate_lack_of_pgo.BitRw.RoundTrip.{StandsAt}
use investigate_lack_of_pgo.Delta.{
  suit_bit, process_card, Decoding, push_orig, next_card, read_suits, add_card,
}
use investigate_lack_of_pgo.Delta.Fields.{Holds, reader_read-Reads, suit_fields}
use investigate_lack_of_pgo.Delta.Chain.{next_card_lem, suit_bit-lt}

take-suc :
    (col : Column) (n : ℕ)
    → n < length col
    → take (suc n) col ≡ take n col ++ col_get_card col n ∷ []
take-suc [] n h = absurd (omega arith)
take-suc (x ∷ col) zero h = refl
take-suc (x ∷ col) (suc n) h = ap (λ t. x ∷ t) (take-suc col n (omega arith))

pub take_all : (col : Column) → take (length col) col ≡ col
take_all [] = refl
take_all (x ∷ col) = ap (λ t. x ∷ t) (take_all col)

get_card-take : (col : Column) (n k : ℕ) → k < n → col_get_card (take n col) k ≡ col_get_card col k
get_card-take [] zero k h = refl
get_card-take [] (suc n) k h = refl
get_card-take (x ∷ col) zero k h = absurd (omega arith)
get_card-take (x ∷ col) (suc n) zero h = refl
get_card-take (x ∷ col) (suc n) (suc k) h = get_card-take col n k (omega arith)

col_top-take :
    (col : Column) (n : ℕ)
    → 1 ≤ n
    → n ≤ length col
    → col_top (take n col) ≡ col_get_card col (n - 1)
col_top-take col n h k =
    let top : length (take n col) - 1 ≡ n - 1 = ground (arith, length-take n col) in
    ap (col_get_card (take n col)) top ∙ get_card-take col n (n - 1) (omega arith)

-- the foundations after a run over the first `n` cards of a column
unfoldable pub process_first : (ℕ → ℕ) → Column → ℕ → ℕ → ℕ
unfolding process_card
process_first foundations col zero = foundations
process_first foundations col (suc n) =
    process_card (process_first foundations col n) (col_get_card col n)

-- A decoder that has taken back the first `n` cards of the column.
pub record Taken (mem : ℕ → ℕ) (start p n : ℕ) (fs : ℕ → ℕ) (col : Column) (d : Decoding)
    : Type 0 where
  pub stands : StandsAt mem start p d.bit_r
  pub cards : d.col ≡ take n col
  pub found : d.foundations ≡ process_first fs col n

-- how a decoder goes on with a sequence, where there is one
abbrev pub end_of_column : Decoding → ℕ → Decoding
end_of_column d n = if n == 0 then d else read_suits d (col_top d.col) n

module _ (mem : ℕ → ℕ) (start : ℕ) (fs : ℕ → ℕ) (col : Column) where
  pub Taken-add_card :
      (i p q : ℕ) (d : Decoding) (r : BitReader) (card : Card)
      → Taken mem start p i fs col d
      → i < length col
      → card ≡ col_get_card col i
      → StandsAt mem start q r
      → Taken mem start q (i + 1) fs col (add_card d r card)
  unfolding process_first
  Taken-add_card i p q d r card t h e s = rw add-one (record {
    stands = s;
    cards = ap₂ (λ c x. c ++ x ∷ []) t.cards e ∙ sym (take-suc col i h);
    found = ap₂ process_card t.found e;
  })

  read_suits-Taken :
      (n i p : ℕ) (d : Decoding) (last : Card)
      → Taken mem start p i fs col d
      → 1 ≤ i
      → i + n ≡ length col
      → last ≡ col_get_card col (i - 1)
      → ((k : ℕ) → k < length col → col_get_card col k < 64)
      → ((k : ℕ)
          → i ≤ k
          → k < length col
          → is_parent_card (col_get_card col k) (col_get_card col (k - 1)) ≡ true)
      → Holds mem start p (suit_fields col i n)
      → Taken mem start (p + n) (length col) fs col (read_suits d last n)
  unfolding read_suits suit_fields
  read_suits-Taken zero i p d last t a e b small chain h =
      let all : i ≡ length col = omega arith in
      let here : p ≡ p + 0 = omega arith in subst₂ (λ q k. Taken mem start q k fs col d) here all t
  read_suits-Taken (suc n) i p d last t a e b small chain h =
      let card = col_get_card col i in
      let reads =
        reader_read-Reads mem start p 1 (suit_bit card) (suit_fields col (i + 1) n) d.bit_r t.stands
          h in
      let bit : (reader_read d.bit_r 1).0 ≡ suit_bit card =
        reads.value ∙ mod-eq_of_lt (suit_bit-lt card) in
      let found : next_card (reader_read d.bit_r 1).0 last ≡ card =
        ap₂ next_card bit b
        ∙ next_card_lem card (col_get_card col (i - 1)) (small i (omega arith))
            (chain i (omega arith) (omega arith)) in
      let back : i ≡ i + 1 - 1 = omega arith in
      let places : p + 1 + n ≡ p + suc n = omega arith in
      subst
        (λ q. Taken mem start q (length col) fs col (
          read_suits
            (add_card d (reader_read d.bit_r 1).1 (next_card (reader_read d.bit_r 1).0 last))
            (next_card (reader_read d.bit_r 1).0 last) n))
        places
        (read_suits-Taken n (i + 1) (p + 1) _ _
          (Taken-add_card i p (p + 1) d _ _ t (omega arith) found reads.stands) (omega arith)
          (omega arith) (found ∙ ap (col_get_card col) back) small (λ k q. chain k (omega arith))
          reads.holds)

  -- The cards of the initial column that stand in this one too.
  pub push_orig-Taken :
      (orig : Column) (n p : ℕ) (d : Decoding)
      → Taken mem start p 0 fs col d
      → n ≤ length col
      → ((k : ℕ) → k < n → col_get_card orig k ≡ col_get_card col k)
      → Taken mem start p n fs col (push_orig d orig n)
  unfolding push_orig
  push_orig-Taken orig zero p d t h same = t
  push_orig-Taken orig (suc n) p d t h same =
      let before = push_orig-Taken orig n p d t (omega arith) (λ k q. same k (omega arith)) in
      rw add-one at (
        Taken-add_card n p p (push_orig d orig n) _ _ before (omega arith) (same n (omega arith))
          before.stands)

  -- The sequence, where there is one.
  pub end_of_column-Taken :
      (n i p : ℕ) (d : Decoding)
      → Taken mem start p i fs col d
      → i + n ≡ length col
      → ((n == 0) ≡ false → 1 ≤ i)
      → ((k : ℕ) → k < length col → col_get_card col k < 64)
      → ((k : ℕ)
          → i ≤ k
          → k < length col
          → 1 ≤ k
          → is_parent_card (col_get_card col k) (col_get_card col (k - 1)) ≡ true)
      → Holds mem start p (suit_fields col i n)
      → Taken mem start (p + n) (length col) fs col (end_of_column d n)
  end_of_column-Taken n i p d t e positive small chain h = elim (Bool-cases (n == 0)) [
    | inl over ↦
        let all : i ≡ length col = ground arith in
        let here : p ≡ p + n = ground arith in
        rw over (subst₂ (λ q k. Taken mem start q k fs col d) here all t)
    | inr more ↦ rw more (
        read_suits-Taken n i p d (col_top d.col) t (positive more) e
          (ap col_top t.cards ∙ col_top-take col i (positive more) (omega arith)) small
          (λ k a b. chain k a b (omega (arith, positive more))) h)
  ]
