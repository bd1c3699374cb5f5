-- ===== src/Freecell/Positions/Placed.antt =====
-- What the positions by rank are: the slot of a card holds where it stands, when it is on no parent
-- of the card above it.
use investigate_lack_of_pgo.Prelude.{
  ℕ, zero, suc, ◌+◌, ◌≤◌, ◌<◌, ◌≡◌, refl, sym, ap, ap₂, subst, subst₂, arith, true, false, ◌==◌,
  ==_iff, Bool-cases, inl, inr, Option, some, none, Option-cases, length, update,
}
use investigate_lack_of_pgo.Card.{Card, card_rank, card_suit, card_is_empty}
use investigate_lack_of_pgo.State.{State, Dims, col_get_card}
use investigate_lack_of_pgo.Freecell.{is_parent_card, card_is_valid}
use investigate_lack_of_pgo.Freecell.Positions.{
  Slots, slot_of, free_slot, assign_dest_stack_and_col_ptr, column_positions, stack_positions,
  positions_from, positions_by_rank,
}

abbrev pub card_at : State → ℕ → ℕ → Card
card_at st b j = col_get_card (st.stacks b) j

-- a place of a card in the columns
abbrev pub IsPlace : Dims → State → ℕ → ℕ → Type 0
IsPlace d st b j = (b < d.stacks_num) × (j < length (st.stacks b))

-- The cards of the columns are valid, and no two of them are the same.
pub record OneDeck (d : Dims) (st : State) : Type 0 where
  pub valid : (b j : ℕ) → IsPlace d st b j → card_is_valid (card_at st b j) ≡ true
  pub once :
      (b j c k : ℕ)
      → IsPlace d st b j
      → IsPlace d st c k
      → card_at st b j ≡ card_at st c k
      → (b ≡ c) × (j ≡ k)

-- The card stands there, and the one above it, if there is one, does not stand on its parent.
abbrev pub IsOpen : Dims → State → ℕ → ℕ → Type 0
IsOpen d st b j =
    IsPlace d st b j
    × (j + 1 < length (st.stacks b)
        → is_parent_card (card_at st b (j + 1)) (card_at st b j) ≡ false)

-- The first place comes before the second one.
abbrev pub Before : ℕ → ℕ → ℕ → ℕ → Type 0
Before b j a i = (b ≤ a) × (b ≡ a → j < i)

-- What a slot holds, of the places before (a, i).
abbrev pub Entry : Dims → State → ℕ → ℕ → ℕ → Option (ℕ × ℕ) → Type 0
Entry d st a i s none = Unit {0}
Entry d st a i s (some (b, j)) = IsOpen d st b j × Before b j a i × (slot_of (card_at st b j) ≡ s)

-- The slots hold the open places before (a, i), and all of these.
pub record Placed (d : Dims) (st : State) (slots : Slots) (a i : ℕ) : Type 0 where
  pub sound : (s : ℕ) → Entry d st a i s (slots s)
  pub complete :
      (b j : ℕ) → IsOpen d st b j → Before b j a i → slots (slot_of (card_at st b j)) ≡ some (b, j)

-- A valid card is known by its slot.
slot_of-injective :
    (x y : Card) → card_is_valid x ≡ true → card_is_valid y ≡ true → slot_of x ≡ slot_of y → x ≡ y
unfolding slot_of card_is_empty card_rank card_suit
slot_of-injective x y h k e = ground (arith, h, k, e)

free_slot-none : (slots : Slots) (s rounds : ℕ) → slots s ≡ none → free_slot slots s rounds ≡ s
unfolding free_slot
free_slot-none slots s zero e = refl
free_slot-none slots s (suc rounds) e = rw (e, free_slot) refl

module _ (d : Dims) (st : State) (deck : OneDeck d st) where
  same_slot :
      (b j a i : ℕ)
      → IsPlace d st b j
      → IsPlace d st a i
      → slot_of (card_at st b j) ≡ slot_of (card_at st a i)
      → (b ≡ a) × (j ≡ i)
  same_slot b j a i h k e =
      deck.once b j a i h k (slot_of-injective _ _ (deck.valid b j h) (deck.valid a i k) e)

  -- The slot of a place that comes next is free.
  next_slot-free :
      (slots : Slots) (a i : ℕ)
      → Placed d st slots a i
      → IsPlace d st a i
      → slots (slot_of (card_at st a i)) ≡ none
  next_slot-free slots a i p h = elim (Option-cases (slots (slot_of (card_at st a i)))) [
    | inl e ↦ e
    | inr ((b, j), e) ↦
        let (bare, before, same) =
          subst (Entry d st a i (slot_of (card_at st a i))) e
            (p.sound (slot_of (card_at st a i))) in
        let (col, height) = same_slot b j a i bare.0 h same in
        absurd (omega (arith, before.1 col, height))
  ]

  Entry-later :
      (a i a' i' s : ℕ) (o : Option (ℕ × ℕ))
      → ((b j : ℕ) → Before b j a i → Before b j a' i')
      → Entry d st a i s o
      → Entry d st a' i' s o
  Entry-later a i a' i' s none h e = tt
  Entry-later a i a' i' s (some (b, j)) h (bare, before, same) = (bare, h b j before, same)

  -- With nothing to assign between the places, the later one is reached.
  skip-Placed :
      (slots : Slots) (a i a' i' : ℕ)
      → Placed d st slots a i
      → ((b j : ℕ) → Before b j a i → Before b j a' i')
      → ((b j : ℕ) → IsOpen d st b j → Before b j a' i' → Before b j a i)
      → Placed d st slots a' i'
  skip-Placed slots a i a' i' p h k = record {
    sound = λ s. Entry-later a i a' i' s (slots s) h (p.sound s);
    complete = λ b j bare before. p.complete b j bare (k b j bare before);
  }

  assign-slot :
      (slots : Slots) (a i : ℕ)
      → Placed d st slots a i
      → IsPlace d st a i
      → assign_dest_stack_and_col_ptr slots a i (card_at st a i)
        ≡ update slots (slot_of (card_at st a i)) (some (a, i))
  unfolding assign_dest_stack_and_col_ptr
  assign-slot slots a i p h =
      ap (λ s. update slots s (some (a, i)))
        (free_slot-none slots (slot_of (card_at st a i)) 13 (next_slot-free slots a i p h))

  -- a place before the next one, in another slot, comes before this one
  Before-other :
      (b j a i : ℕ)
      → Before b j a (i + 1)
      → (slot_of (card_at st a i) == slot_of (card_at st b j)) ≡ false
      → Before b j a i
  Before-other b j a i before other = (
    before.0,
    λ e. elim (Bool-cases (j == i)) [
      | inl q ↦
          let here : slot_of (card_at st a i) ≡ slot_of (card_at st b j) =
            ap₂ (λ x y. slot_of (card_at st x y)) (sym e) (sym ((==_iff j i).0 q)) in
          absurd (ground (arith, here, other))
      | inr q ↦ ground (arith, before.1 e, q)
    ],
  )

  assign-Placed :
      (slots : Slots) (a i : ℕ)
      → Placed d st slots a i
      → IsOpen d st a i
      → Placed d st (assign_dest_stack_and_col_ptr slots a i (card_at st a i)) a (i + 1)
  assign-Placed slots a i p bare =
      let t = slot_of (card_at st a i) in
      let after : (b j : ℕ) → Before b j a i → Before b j a (i + 1) =
        λ b j q. (q.0, λ e. omega (arith, q.1 e)) in
      subst (λ z. Placed d st z a (i + 1)) (sym (assign-slot slots a i p bare.0))
        (record {
          sound = λ s. elim (Bool-cases (t == s)) [
            | inl e ↦ rw e (bare, (omega arith, λ q. omega arith), (==_iff t s).0 e)
            | inr e ↦ rw e (Entry-later a i a (i + 1) s (slots s) after (p.sound s))
          ];
          complete = λ b j bare' before. elim (Bool-cases (t == slot_of (card_at st b j))) [
            | inl e ↦
                let here = same_slot a i b j bare.0 bare'.0 ((==_iff t _).0 e) in
                rw e (ap₂ (λ x y. some (x, y)) here.0 here.1)
            | inr e ↦ rw e (p.complete b j bare' (Before-other b j a i before e))
          ];
        })

  -- A place before the next column is in this one or before, and under a column's height.
  in_columns :
      (a i b j : ℕ)
      → length (st.stacks a) ≤ i
      → IsPlace d st b j
      → Before b j (a + 1) 0
      → Before b j a i
  in_columns a i b j k h q = (
    elim (Bool-cases (b == a + 1)) [
      | inl e ↦ absurd (omega (arith, q.1 ((==_iff b (a + 1)).0 e)))
      | inr e ↦ ground (arith, q.0, e)
    ],
    λ e. omega (arith, h.1, subst (λ c. length (st.stacks c) ≤ i) (sym e) k),
  )

  next_column : (a i b j : ℕ) → Before b j a i → Before b j (a + 1) 0
  next_column a i b j q = (omega (arith, q.0), λ e. absurd (omega (arith, q.0, e)))

  -- a card with its child above it is passed over
  covered-Placed :
      (slots : Slots) (a i : ℕ)
      → i + 1 < length (st.stacks a)
      → is_parent_card (card_at st a (i + 1)) (card_at st a i) ≡ true
      → Placed d st slots a i
      → Placed d st slots a (i + 1)
  covered-Placed slots a i h covers p =
      skip-Placed slots a i a (i + 1) p (λ b j q. (q.0, λ e. omega (arith, q.1 e)))
        (λ b j bare q. (
          q.0,
          λ e. elim (Bool-cases (j == i)) [
            | inl s ↦
                let at : (b ≡ a) × (j ≡ i) = (e, (==_iff j i).0 s) in
                let bare' : IsOpen d st a i = subst₂ (IsOpen d st) at.0 at.1 bare in
                absurd (ground (arith, bare'.1 h, covers))
            | inr s ↦ ground (arith, q.1 e, s)
          ],
        ))

  -- The heights of a column, from the one to its top.
  column-Placed :
      (slots : Slots) (a i rounds : ℕ)
      → a < d.stacks_num
      → length (st.stacks a) ≡ i + rounds + 1
      → Placed d st slots a i
      → Placed d st (column_positions slots a (st.stacks a) i rounds) (a + 1) 0
  unfolding column_positions
  column-Placed slots a i zero h k p =
      skip-Placed _ a (i + 1) (a + 1) 0
        (assign-Placed slots a i p ((h, omega (arith, k)), λ q. absurd (omega (arith, k, q))))
        (next_column a (i + 1)) (λ b j bare q. in_columns a (i + 1) b j (omega (arith, k)) bare.0 q)
  column-Placed slots a i (suc rounds) h k p =
      elim (Bool-cases (is_parent_card (card_at st a (i + 1)) (card_at st a i))) [
        | inl e ↦ rw e (
            column-Placed slots a (i + 1) rounds h (omega (arith, k))
              (covered-Placed slots a i (omega (arith, k)) e p))
        | inr e ↦ rw e (
            column-Placed (assign_dest_stack_and_col_ptr slots a i (card_at st a i)) a (i + 1)
              rounds h (omega (arith, k))
              (assign-Placed slots a i p ((h, omega (arith, k)), λ q. e)))
      ]

  stack-Placed :
      (slots : Slots) (a : ℕ)
      → a < d.stacks_num
      → Placed d st slots a 0
      → Placed d st (stack_positions st slots a) (a + 1) 0
  unfolding stack_positions
  stack-Placed slots a h p = of_length (length (st.stacks a)) refl
    where
      of_length :
          (n : ℕ)
          → length (st.stacks a) ≡ n
          → Placed d st
              (elim n [ zero ↦ slots | suc top ↦ column_positions slots a (st.stacks a) 0 top ])
              (a + 1)
              0
      of_length zero e =
          skip-Placed slots a 0 (a + 1) 0 p (next_column a 0)
            (λ b j bare q. in_columns a 0 b j (omega (arith, e)) bare.0 q)
      of_length (suc top) e = column-Placed slots a 0 top h (omega (arith, e)) p

  positions_from-Placed :
      (slots : Slots) (a rounds : ℕ)
      → a + rounds ≤ d.stacks_num
      → Placed d st slots a 0
      → Placed d st (positions_from st slots a rounds) (a + rounds) 0
  unfolding positions_from
  positions_from-Placed slots a zero h p = subst (λ n. Placed d st slots n 0) (omega arith) p
  positions_from-Placed slots a (suc rounds) h p =
      subst (λ n. Placed d st (positions_from st (stack_positions st slots a) (a + 1) rounds) n 0)
        (omega arith)
        (positions_from-Placed (stack_positions st slots a) (a + 1) rounds (omega (arith, h))
          (stack-Placed slots a (omega (arith, h)) p))

  -- With the cards of one deck in the columns, valid and each at most once, the generator's table has
  -- exactly the cards that do not have a card on them that they are the parent of, each where it
  -- stands, in the slot of its rank and suit.
  pub positions_by_rank-Placed : Placed d st (positions_by_rank d st) d.stacks_num 0
  unfolding positions_by_rank
  positions_by_rank-Placed =
      subst (λ n. Placed d st (positions_by_rank d st) n 0) (omega arith)
        (positions_from-Placed (λ s. none) 0 d.stacks_num (omega arith)
          (record { sound = λ s. tt; complete = λ b j bare q. absurd (ground (arith, q.0, q.1)) }))
