-- ===== src/Deal/Tests.antt =====
-- Boards of some game numbers.
use investigate_lack_of_pgo.Prelude.{◌/◌, ◌%◌, ◌+◌, ◌≡◌, refl, arith}
use investigate_lack_of_pgo.Deal.{get_board_l, pi_rounds, rand_get_random_number}
use investigate_lack_of_pgo.Deal.Shuffle.{dealt}
use investigate_lack_of_pgo.Deal.Board.{IsBoard, get_board_l-IsBoard}
use investigate_lack_of_pgo.Deal.Generators.{
  IsTwoDraws, rand_get_random_number-IsTwoDraws, pi_rounds-dealt,
}

-- game 24 begins with the four of clubs
first_of_24 : (get_board_l 24 0 ≡ b'4') × (get_board_l 24 1 ≡ b'C')
unfolding get_board_l
first_of_24 = (refl, refl)

get_board_l-IsBoard_example : IsBoard (get_board_l 24) (dealt 24)
get_board_l-IsBoard_example = get_board_l-IsBoard 24

rand_get_random_number-IsTwoDraws_example : IsTwoDraws 1 (rand_get_random_number 1)
rand_get_random_number-IsTwoDraws_example = rand_get_random_number-IsTwoDraws 1

pi_rounds-dealt_example : (pi_rounds (λ c r. 0) 24 52).card (11 % 8 + 1) (11 / 8) ≡ dealt 24 11
pi_rounds-dealt_example = pi_rounds-dealt (λ c r. 0) 24 11 (omega arith) (omega arith)
