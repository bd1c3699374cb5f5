-- ===== src/Deal/Shuffle.antt =====
-- The loop of get_board_l takes every card of the deck once.
use investigate_lack_of_pgo.Prelude.{
  ℕ, zero, suc, ◌+◌, ◌-◌, ◌≤◌, ◌<◌, ◌≡◌, refl, arith, Bool-cases, inl, inr, ◌==◌, ltb,
  if◌then◌else◌, update, sum_below, sum_below_zero, sum_below_cong, sum_below-update,
}
use native.Mathlib.Nat.{mod-lt}
use investigate_lack_of_pgo.Deal.{pick, deal_round, deal_start, deal_rounds}

-- the card that round `i` deals
unfoldable pub dealt : ℕ → ℕ → ℕ
unfolding deal_rounds pick
dealt game_number i = let d = deal_rounds game_number i in d.deck (pick game_number d)

abbrev pub equals : ℕ → ℕ → ℕ
equals card c = if c == card then 1 else 0

-- Taking a cell out and filling it with the last one loses just that cell.
take_out :
    (g : ℕ → ℕ) (left j : ℕ) (deck : ℕ → ℕ)
    → j < suc left
    → sum_below left (λ k. g (update deck j (deck left) k)) + g (deck j)
      ≡ sum_below (suc left) (λ k. g (deck k))
unfolding sum_below
take_out g left j deck h = elim (Bool-cases (j == left)) [
  | inl last ↦ ground (
    arith,
    sum_below_cong left (λ k. g (update deck j (deck left) k)) (λ k. g (deck k))
        (λ k q. ground arith),
  )
  | inr before ↦ ground (arith, sum_below-update g left deck j (deck left) (ground arith))
]

identity_count : (n c : ℕ) → sum_below n (λ i. equals c i) ≡ (if ltb c n then 1 else 0)
unfolding sum_below
identity_count zero c = ground arith
identity_count (suc n) c = ground (arith, identity_count n c)

num_cards_left-deal_rounds :
    (game_number n : ℕ) → n ≤ 52 → (deal_rounds game_number n).num_cards_left ≡ 52 - n
unfolding deal_rounds deal_round deal_start
num_cards_left-deal_rounds game_number zero h = refl
num_cards_left-deal_rounds game_number (suc n) h =
    omega (arith, num_cards_left-deal_rounds game_number n (omega arith))

pub pick-lt : (game_number n : ℕ) → n < 52 → pick game_number (deal_rounds game_number n) < 52 - n
unfolding pick
pick-lt game_number n h =
    let left = num_cards_left-deal_rounds game_number n (omega arith) in
    rw left (mod-lt _ (omega arith))

identity_once : (c : ℕ) → c < 52 → sum_below 52 (λ i. equals c i) ≡ 1
identity_once c h = ground (arith, identity_count 52 c)

sum-suc : (n : ℕ) (g : ℕ → ℕ) → sum_below (suc n) g ≡ sum_below n g + g n
unfolding sum_below
sum-suc n g = refl

-- What is dealt and what is left are the whole deck.
count-deal_rounds :
    (game_number c n : ℕ)
    → n ≤ 52
    → c < 52
    → sum_below n (λ i. equals c (dealt game_number i))
        + sum_below (52 - n) (λ k. equals c ((deal_rounds game_number n).deck k))
      ≡ 1
unfolding dealt deal_rounds deal_round deal_start
count-deal_rounds game_number c zero h k =
    omega (arith, sum_below_zero (λ i. equals c (dealt game_number i)), identity_once c k)
count-deal_rounds game_number c (suc n) h k =
    let d = deal_rounds game_number n in
    let left : d.num_cards_left - 1 ≡ 51 - n =
      omega (arith, num_cards_left-deal_rounds game_number n (omega arith)) in
    let more : 52 - n ≡ suc (51 - n) = omega arith in
    let less : 52 - suc n ≡ 51 - n = omega arith in
    let taken =
      take_out (equals c) (51 - n) (pick game_number d) d.deck
        (rw more at (pick-lt game_number n (omega arith))) in
    let before = rw more at (count-deal_rounds game_number c n (omega arith) k) in
    rw (left, less) (omega (arith, sum-suc n (λ i. equals c (dealt game_number i)), taken, before))

-- Whatever the game number, the 52 rounds deal each of the 52 cards once.
pub dealt-once :
    (game_number c : ℕ) → c < 52 → sum_below 52 (λ i. equals c (dealt game_number i)) ≡ 1
dealt-once game_number c h = omega (
  arith,
  count-deal_rounds game_number c 52 (omega arith) h,
  sum_below_zero (λ k. equals c ((deal_rounds game_number 52).deck k)),
)
