-- ===== src/Deal.antt =====
-- rand.h, range_solvers_gen_ms_boards.h and board_gen/pi_make_microsoft_freecell_board.c: the random
-- numbers of Microsoft's C library, and the boards of Microsoft FreeCell dealt with them. A seed
-- is the bits of a `long` or `long long` of 64 bits, of which the code only looks at low ones.
pub mod Shuffle
pub mod Board
pub mod Generators
mod Tests
use investigate_lack_of_pgo.Prelude.{
  ℕ, zero, suc, ◌+◌, ◌-◌, ◌*◌, ◌/◌, ◌%◌, ◌^◌, bit_or, ltb, ◌==◌, true, false, if◌then◌else◌, List,
  [], ◌∷◌, get_or, update,
}

-- `*my_rand = ((*my_rand) * 214013 + 2531011)`
unfoldable pub next_seed : ℕ → ℕ
next_seed seed = (seed * 214013 + 2531011) % 2 ^ 64

-- fc_solve_rand_init
abbrev pub rand_init : ℕ → ℕ
rand_init seed = seed % 2 ^ 32

-- fc_solve_rand_rand15: the number and the next seed
unfoldable pub rand_rand15 : ℕ → ℕ × ℕ
unfolding next_seed
rand_rand15 my_rand = let s = next_seed my_rand in (s / 2 ^ 16 % 2 ^ 15, s)

-- fc_solve_rand_get_random_number
unfoldable pub rand_get_random_number : ℕ → ℕ × ℕ
unfolding rand_rand15
rand_get_random_number my_rand =
    let (first, s) = rand_rand15 my_rand in
    let (second, s') = rand_rand15 s in (bit_or first (second * 2 ^ 15), s')

-- microsoft_rand_rand
unfoldable pub microsoft_rand_rand : ℕ → ℕ × ℕ
unfolding next_seed
microsoft_rand_rand my_rand = let s = next_seed my_rand in (s / 2 ^ 16 % 2 ^ 15, s)

-- microsoft_rand_randp
unfoldable pub microsoft_rand_randp : ℕ → ℕ × ℕ
unfolding next_seed
microsoft_rand_randp my_rand = let s = next_seed my_rand in (s / 2 ^ 16 % 2 ^ 16, s)

-- microsoft_rand__game_num_rand
unfoldable pub game_num_rand : ℕ → ℕ → ℕ × ℕ
unfolding microsoft_rand_rand microsoft_rand_randp
game_num_rand seedx game_number =
    let (ret, s) = microsoft_rand_rand seedx in
    let (retp, sp) = microsoft_rand_randp seedx in
    if ltb game_number (2 ^ 32)
    then (if ltb game_number (2 ^ 31) then ret else bit_or ret 0x8000, s)
    else (retp + 1, sp)

-- card_to_string_values and card_to_string_suits
abbrev pub card_to_string_values : List ℕ
card_to_string_values =
    b'A' ∷ b'2' ∷ b'3' ∷ b'4' ∷ b'5' ∷ b'6' ∷ b'7' ∷ b'8' ∷ b'9' ∷ b'T' ∷ b'J' ∷ b'Q' ∷ b'K' ∷ []

abbrev pub card_to_string_suits : List ℕ
card_to_string_suits = b'C' ∷ b'D' ∷ b'H' ∷ b'S' ∷ []

abbrev pub value_char : ℕ → ℕ
value_char card = get_or card_to_string_values (card / 4) 0

abbrev pub suit_char : ℕ → ℕ
suit_char card = get_or card_to_string_suits (card % 4) 0

-- card_to_string, at an offset of the text
unfoldable pub card_to_string : (ℕ → ℕ) → ℕ → ℕ → ℕ → ℕ
card_to_string s at card = update (update s at (value_char card)) (at + 1) (suit_char card)

-- the loop variables and arrays of get_board_l
pub record Dealing : Type 0 where
  pub seedx : ℕ
  pub num_cards_left : ℕ
  pub deck : ℕ → ℕ
  pub ret : ℕ → ℕ

-- `3 * (col * 7 - ((col > 4) ? (col-4) : 0) + card_idx)`
unfoldable pub card_offset : ℕ → ℕ
card_offset i =
    let col = i % 8 in
    let card_idx = i / 8 in 3 * (col * 7 - (if ltb 4 col then col - 4 else 0) + card_idx)

-- `microsoft_rand__game_num_rand(&seedx, gamenumber) % num_cards_left`
unfoldable pub pick : ℕ → Dealing → ℕ
unfolding game_num_rand
pick game_number d = (game_num_rand d.seedx game_number).0 % d.num_cards_left

-- the body of the loop
unfoldable pub deal_round : ℕ → ℕ → Dealing → Dealing
unfolding pick game_num_rand card_to_string card_offset
deal_round game_number i d =
    let j = pick game_number d in
    let left = d.num_cards_left - 1 in
    record {
      seedx = (game_num_rand d.seedx game_number).1;
      num_cards_left = left;
      deck = update d.deck j (d.deck left);
      ret = card_to_string d.ret (card_offset i) (d.deck j);
    }

-- the characters of "XX XX XX XX XX XX XX\n" and "XX XX XX XX XX XX\n" on four lines each
unfoldable pub template : ℕ → ℕ
template k =
    let newline =
      if ltb k 84 then k % 21 == 20 else if ltb k 156 then (k - 84) % 18 == 17 else false in
    if newline then 10 else if ltb k 156 then (if k % 3 == 2 then 32 else b'X') else 0

-- the seed, and the shuffle's start
unfoldable pub deal_start : ℕ → Dealing
unfolding template
deal_start game_number = record {
  seedx = (if ltb game_number (2 ^ 32) then game_number else game_number - 2 ^ 32) % 2 ^ 32;
  num_cards_left = 52;
  deck = λ i. i;
  ret = template;
}

-- the first `n` rounds
unfoldable pub deal_rounds : ℕ → ℕ → Dealing
unfolding deal_start deal_round
deal_rounds game_number zero = deal_start game_number
deal_rounds game_number (suc n) = deal_round game_number n (deal_rounds game_number n)

-- fc_solve_get_board_l, get_board_l
unfoldable pub get_board_l : ℕ → ℕ → ℕ
unfolding deal_rounds
get_board_l game_number = (deal_rounds game_number 52).ret

-- The variables of main of board_gen/pi_make_microsoft_freecell_board.c; `card` is two-dimensional.
pub record PiDealing : Type 0 where
  pub seed : ℕ
  pub w_left : ℕ
  pub deck : ℕ → ℕ
  pub card : ℕ → ℕ → ℕ

-- the body of its loop
unfoldable pub pi_round : ℕ → PiDealing → PiDealing
unfolding microsoft_rand_rand
pi_round i d =
    let j = (microsoft_rand_rand d.seed).0 % d.w_left in
    let left = d.w_left - 1 in
    record {
      seed = (microsoft_rand_rand d.seed).1;
      w_left = left;
      deck = update d.deck j (d.deck left);
      card = update d.card (i % 8 + 1) (update (d.card (i % 8 + 1)) (i / 8) (d.deck j));
    }

-- The first `n` rounds; `fresh` is what the array holds before.
unfoldable pub pi_rounds : (ℕ → ℕ → ℕ) → ℕ → ℕ → PiDealing
unfolding pi_round
pi_rounds fresh game_number zero = record {
  seed = game_number % 2 ^ 32;
  w_left = 52;
  deck = λ i. i;
  card = fresh;
}
pi_rounds fresh game_number (suc n) = pi_round n (pi_rounds fresh game_number n)
