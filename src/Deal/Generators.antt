-- ===== src/Deal/Generators.antt =====
-- The random numbers' bounds, and the two generators of boards against each other.
use investigate_lack_of_pgo.Prelude.{
  ℕ, zero, suc, ◌+◌, ◌-◌, ◌/◌, ◌%◌, ◌^◌, ◌<◌, ◌≡◌, refl, ap, ap₂, sym, ◌∙◌, arith, Bool-cases, inl,
  inr, ◌==◌, update,
}
use investigate_lack_of_pgo.Prelude.Bits.{bit_or_shift}
use investigate_lack_of_pgo.Deal.{
  rand_rand15, rand_get_random_number, microsoft_rand_rand, game_num_rand, pick, Dealing,
  deal_round, deal_start, deal_rounds, PiDealing, pi_round, pi_rounds,
}
use investigate_lack_of_pgo.Deal.Shuffle.{dealt}

-- What a large random number is made of.
pub record IsTwoDraws (my_rand : ℕ) (out : ℕ × ℕ) : Type 0 where
  pub bound : out.0 < 2 ^ 30
  pub low : out.0 % 2 ^ 15 ≡ (rand_rand15 my_rand).0
  pub high : out.0 / 2 ^ 15 ≡ (rand_rand15 (rand_rand15 my_rand).1).0
  pub next : out.1 ≡ (rand_rand15 (rand_rand15 my_rand).1).1

rand_rand15-lt : (my_rand : ℕ) → (rand_rand15 my_rand).0 < 2 ^ 15
unfolding rand_rand15
rand_rand15-lt my_rand = omega arith

-- From any seed, `fc_solve_rand_get_random_number` gives a number of thirty bits, the first draw of
-- `fc_solve_rand_rand15` in the low fifteen and the second one above them, and leaves the seed
-- after both draws.
pub rand_get_random_number-IsTwoDraws :
    (my_rand : ℕ) → IsTwoDraws my_rand (rand_get_random_number my_rand)
unfolding rand_get_random_number
rand_get_random_number-IsTwoDraws my_rand =
    let first = rand_rand15 my_rand in
    let second = rand_rand15 first.1 in
    let sum = bit_or_shift 15 first.0 second.0 (rand_rand15-lt my_rand) in
    let low_bound = rand_rand15-lt my_rand in
    let high_bound = rand_rand15-lt first.1 in
    record {
      bound = omega (arith, sum, low_bound, high_bound);
      low = omega (arith, sum, low_bound, high_bound);
      high = omega (arith, sum, low_bound, high_bound);
      next = refl;
    }

-- The two generators after the same number of rounds.
record Agree (game_number n : ℕ) (pi : PiDealing) (d : Dealing) : Type 0 where
  seed : pi.seed ≡ d.seedx
  left : pi.w_left ≡ d.num_cards_left
  deck : pi.deck ≡ d.deck
  cards : (i : ℕ) → i < n → pi.card (i % 8 + 1) (i / 8) ≡ dealt game_number i

game_num_rand_small :
    (seedx game_number : ℕ)
    → game_number < 2 ^ 31
    → game_num_rand seedx game_number ≡ microsoft_rand_rand seedx
unfolding game_num_rand microsoft_rand_rand
game_num_rand_small seedx game_number h = ground arith

module _ (game_number n : ℕ) (h : game_number < 2 ^ 31) (pi : PiDealing)
    (a : Agree game_number n pi (deal_rounds game_number n)) where
  same_draw :
      microsoft_rand_rand pi.seed ≡ game_num_rand (deal_rounds game_number n).seedx game_number
  same_draw =
      ap microsoft_rand_rand a.seed
      ∙ sym (game_num_rand_small (deal_rounds game_number n).seedx game_number h)

  same_pick :
      (microsoft_rand_rand pi.seed).0 % pi.w_left ≡ pick game_number (deal_rounds game_number n)
  unfolding pick
  same_pick = ap₂ (λ r w. r % w) (ap (λ p. p.0) same_draw) a.left

  same_card : pi.deck ((microsoft_rand_rand pi.seed).0 % pi.w_left) ≡ dealt game_number n
  unfolding dealt
  same_card = ap₂ (λ f j. f j) a.deck same_pick

  Agree-pi_round : Agree game_number (suc n) (pi_round n pi) (deal_rounds game_number (suc n))
  unfolding pi_round deal_rounds deal_round
  Agree-pi_round = record {
    seed = ap (λ p. p.1) same_draw;
    left = ap (λ w. w - 1) a.left;
    deck = λ t. update (a.deck t) (same_pick t) (a.deck t (a.left t - 1));
    cards = λ i q. elim (Bool-cases (i == n)) [
      | inl e ↦ ground (arith, same_card)
      | inr e ↦ ground (arith, a.cards i (ground arith))
    ];
  }

pi_rounds-Agree :
    (fresh : ℕ → ℕ → ℕ) (game_number n : ℕ)
    → game_number < 2 ^ 31
    → Agree game_number n (pi_rounds fresh game_number n) (deal_rounds game_number n)
unfolding pi_rounds deal_rounds deal_start
pi_rounds-Agree fresh game_number zero h = record {
  seed = ground arith;
  left = refl;
  deck = refl;
  cards = λ i q. absurd (omega arith);
}
pi_rounds-Agree fresh game_number (suc n) h =
    Agree-pi_round game_number n h (pi_rounds fresh game_number n)
      (pi_rounds-Agree fresh game_number n h)

-- For game numbers below two to the 31st, `pi_make_microsoft_freecell_board` deals the cards that
-- `get_board_l` deals, card `i` to row `i / 8` of column `i % 8 + 1`, whatever its array holds
-- before.
pub pi_rounds-dealt :
    (fresh : ℕ → ℕ → ℕ) (game_number i : ℕ)
    → game_number < 2 ^ 31
    → i < 52
    → (pi_rounds fresh game_number 52).card (i % 8 + 1) (i / 8) ≡ dealt game_number i
pi_rounds-dealt fresh game_number i h k = (pi_rounds-Agree fresh game_number 52 h).cards i k
