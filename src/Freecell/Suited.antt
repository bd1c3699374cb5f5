-- ===== src/Freecell/Suited.antt =====
-- A state in which no card stands twice, and none without a rank: the moves that the tests record keep
-- it so, and so the tests can take what they derive.
use investigate_lack_of_pgo.Prelude.{
  ℕ, zero, suc, ◌+◌, ◌≤◌, ◌<◌, ◌≡◌, refl, sym, subst, arith, ◌==◌, ltb, ==_iff, true, Bool-cases,
  inl, inr, none, length, [], ◌∷◌,
}
use investigate_lack_of_pgo.Card.{Card, empty_card, card_is_empty, card_rank, card_suit}
use investigate_lack_of_pgo.State.{State, Dims, Column, col_get_card}
use investigate_lack_of_pgo.State.Canonize.{canonize}
use investigate_lack_of_pgo.State.Count.{
  is_card, in_column, in_stacks, occurrences, occurrences_lem,
}
use investigate_lack_of_pgo.InsertionSort.Places.{sum_below-two_terms}
use investigate_lack_of_pgo.Move.Stack.{MoveStack, replay}
use investigate_lack_of_pgo.Move.Played.{StackedLegal}
use investigate_lack_of_pgo.Move.Conservation.{apply_move-occurrences, canonize-occurrences}
use investigate_lack_of_pgo.Freecell.{card_is_valid}
use investigate_lack_of_pgo.Freecell.Recorded.{StackedAllowed}
use investigate_lack_of_pgo.Freecell.Positions.Placed.{OneDeck, IsPlace, card_at}
use investigate_lack_of_pgo.Freecell.Empty.ToFreecells.{CleanFrom}
use investigate_lack_of_pgo.Freecell.Tidy.{
  IsTidy, apply_move-IsTidy, canonize-IsTidy, in_column-le, is_card-le,
}

pub record IsSuited (d : Dims) (st : State) : Type 0 where
  pub neat : IsTidy d st
  pub once : (suit rank : ℕ) → 1 ≤ rank → occurrences suit rank d st ≤ 1

-- A card of a column counts in it.
in_column-get :
    (suit rank : ℕ) (col : Column) (j : ℕ)
    → j < length col
    → is_card suit rank (col_get_card col j) ≤ in_column suit rank col
unfolding in_column
in_column-get suit rank [] j h = absurd (omega arith)
in_column-get suit rank (x ∷ col) zero h = omega arith
in_column-get suit rank (x ∷ col) (suc j) h =
    omega (arith, in_column-get suit rank col j (omega (arith, h)))

in_column-get_two :
    (suit rank : ℕ) (col : Column) (j k : ℕ)
    → j < k
    → k < length col
    → is_card suit rank (col_get_card col j) + is_card suit rank (col_get_card col k)
      ≤ in_column suit rank col
unfolding in_column
in_column-get_two suit rank [] j k h l = absurd (omega (arith, l))
in_column-get_two suit rank (x ∷ col) j zero h l = absurd (omega (arith, h))
in_column-get_two suit rank (x ∷ col) zero (suc k) h l =
    omega (arith, in_column-get suit rank col k (omega (arith, l)))
in_column-get_two suit rank (x ∷ col) (suc j) (suc k) h l =
    omega (arith, in_column-get_two suit rank col j k (omega (arith, h)) (omega (arith, l)))

itself : (card : Card) → is_card (card_suit card) (card_rank card) card ≡ 1
unfolding is_card
itself card = ground arith

no_card :
    (card : Card) → card_is_empty card ≡ true → (card_suit card == 0) ≡ true → card ≡ empty_card
unfolding card_is_empty card_rank card_suit
no_card card e z = ground (arith, e, z)

two_columns-le :
    (suit rank n : ℕ) (st : State) (b c : ℕ)
    → b < n
    → c < b
    → in_column suit rank (st.stacks b) + in_column suit rank (st.stacks c)
      ≤ in_stacks suit rank n st
unfolding in_stacks
two_columns-le suit rank n st b c h k =
    sum_below-two_terms (λ i. in_column suit rank (st.stacks i)) n b c h k

-- A card that counts once in the columns stands at one place.
module _ (suit rank : ℕ) (d : Dims) (st : State)
    (single : in_stacks suit rank d.stacks_num st ≤ 1) where
  same_height :
      (b j k : ℕ)
      → IsPlace d st b j
      → IsPlace d st b k
      → is_card suit rank (card_at st b j) ≡ 1
      → is_card suit rank (card_at st b k) ≡ 1
      → j ≡ k
  same_height b j k (h, p) (_, q) e f = elim (Bool-cases (ltb j k)) [
    | inl lt ↦ absurd (
        ground (
          arith,
          single,
          e,
          f,
          in_column-get_two suit rank (st.stacks b) j k (ground (arith, lt)) q,
          in_column-le suit rank d.stacks_num st b h,
        ))
    | inr ge ↦ elim (Bool-cases (ltb k j)) [
      | inl lt ↦ absurd (
          ground (
            arith,
            single,
            e,
            f,
            in_column-get_two suit rank (st.stacks b) k j (ground (arith, lt)) p,
            in_column-le suit rank d.stacks_num st b h,
          ))
      | inr le ↦ ground (arith, ge, le)
    ]
  ]

  not_later :
      (b j c k : ℕ)
      → IsPlace d st b j
      → IsPlace d st c k
      → is_card suit rank (card_at st b j) ≡ 1
      → is_card suit rank (card_at st c k) ≡ 1
      → c < b
      → ⊥
  not_later b j c k (h, p) (_, q) e f lt = omega (
    arith,
    single,
    e,
    f,
    in_column-get suit rank (st.stacks b) j p,
    in_column-get suit rank (st.stacks c) k q,
    two_columns-le suit rank d.stacks_num st b c h lt,
  )

  one_place :
      (b j c k : ℕ)
      → IsPlace d st b j
      → IsPlace d st c k
      → is_card suit rank (card_at st b j) ≡ 1
      → is_card suit rank (card_at st c k) ≡ 1
      → (b ≡ c) × (j ≡ k)
  one_place b j c k p q e f =
      let col : b ≡ c = elim (Bool-cases (ltb c b)) [
        | inl lt ↦ absurd (not_later b j c k p q e f (ground (arith, lt)))
        | inr ge ↦ elim (Bool-cases (ltb b c)) [
          | inl lt ↦ absurd (not_later c k b j q p f e (ground (arith, lt)))
          | inr le ↦ ground (arith, ge, le)
        ]
      ] in
      (
        col,
        same_height b j k p (subst (λ i. IsPlace d st i k) (sym col) q) e
            (subst (λ i. is_card suit rank (card_at st i k) ≡ 1) (sym col) f),
      )

module _ (d : Dims) (st : State) (s : IsSuited d st) where
  suited-valid : (b j : ℕ) → IsPlace d st b j → card_is_valid (card_at st b j) ≡ true
  unfolding card_is_empty
  suited-valid b j (h, k) =
      let card = card_at st b j in
      let suit = card_suit card in
      elim (Bool-cases (card_rank card == 0)) [
        | inl e ↦
            let no_rank : is_card suit 0 card ≡ 1 =
              subst (λ r. is_card suit r card ≡ 1) ((==_iff (card_rank card) 0).0 e)
                (itself card) in
            absurd (
              omega (
                arith,
                no_rank,
                in_column-get suit 0 (st.stacks b) j k,
                in_column-le suit 0 d.stacks_num st b h,
                s.neat.columns suit,
              ))
        | inr e ↦ rw e refl
      ]

  suited-CleanFrom : CleanFrom d st 0
  unfolding card_is_empty
  suited-CleanFrom i h k e =
      let card = st.freecells i in
      let suit = card_suit card in
      elim (Bool-cases (suit == 0)) [
        | inl z ↦ no_card card e z
        | inr z ↦
            let no_rank : is_card suit 0 card ≡ 1 =
              subst (λ r. is_card suit r card ≡ 1) ((==_iff (card_rank card) 0).0 e)
                (itself card) in
            absurd (
              ground (
                arith,
                no_rank,
                is_card-le suit 0 d.freecells_num st i k,
                s.neat.cells suit (ground (arith, z)),
              ))
      ]

  suited-once :
      (b j c k : ℕ)
      → IsPlace d st b j
      → IsPlace d st c k
      → card_at st b j ≡ card_at st c k
      → (b ≡ c) × (j ≡ k)
  unfolding card_is_empty
  suited-once b j c k h q e =
      let card = card_at st b j in
      let suit = card_suit card in
      let rank = card_rank card in
      let positive : 1 ≤ rank = ground (arith, suited-valid b j h) in
      one_place suit rank d st
        (omega (arith, s.once suit rank positive, occurrences_lem suit rank d st)) b j c k h q
        (itself card) (subst (λ x. is_card suit rank x ≡ 1) e (itself card))

  pub IsSuited-OneDeck : OneDeck d st
  IsSuited-OneDeck = record { valid = suited-valid; once = suited-once }

  pub IsSuited-CleanFrom : CleanFrom d st 0
  IsSuited-CleanFrom = suited-CleanFrom

pub canonize-IsSuited : (d : Dims) (st : State) → IsSuited d st → IsSuited d (canonize d st)
canonize-IsSuited d st s = record {
  neat = canonize-IsTidy d st s.neat;
  once = λ suit rank h. omega (arith, canonize-occurrences suit rank h d st, s.once suit rank h);
}

-- Legal moves that follow the rules, one after the other, keep the state suited.
pub replay-IsSuited :
    (d : Dims) (st : State) (moves : MoveStack)
    → IsSuited d st
    → StackedLegal d st moves
    → StackedAllowed d st moves
    → IsSuited d (replay d st moves)
unfolding replay
replay-IsSuited d st [] s h k = s
replay-IsSuited d st (m ∷ moves) s (h, legal) (k, allowed) =
    let before = replay-IsSuited d st moves s h k in
    let parent = replay d st moves in
    record {
      neat = apply_move-IsTidy d parent before.neat m legal allowed;
      once = λ suit rank p. omega (
        arith,
        apply_move-occurrences suit rank p d parent none m legal,
        before.once suit rank p,
      );
    }
