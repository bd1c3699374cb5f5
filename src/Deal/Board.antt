-- ===== src/Deal/Board.antt =====
-- The text that get_board_l writes is the board of the cards that it deals.
use investigate_lack_of_pgo.Prelude.{
  ℕ, zero, suc, ◌+◌, ◌*◌, ◌/◌, ◌%◌, ◌≤◌, ◌<◌, ◌≡◌, ◌≢◌, refl, arith, Bool-cases, inl, inr, ◌==◌,
  ltb, ◌&&◌, not, true, if◌then◌else◌, sum_below, all_below, all_below_sound, both_true, ==_iff,
}
use investigate_lack_of_pgo.Deal.{
  value_char, suit_char, card_to_string, card_offset, deal_round, deal_start, deal_rounds, template,
  get_board_l,
}
use investigate_lack_of_pgo.Deal.Shuffle.{dealt, equals, dealt-once}

-- Four columns of seven cards before four of six; three characters to a card, its last one a space
-- or the end of the line.
abbrev pub column_chars : ℕ → ℕ
column_chars col = if ltb col 4 then 21 else 18

-- where card `row` of column `col` stands in the text
unfoldable pub place : ℕ → ℕ → ℕ
unfolding sum_below
place col row = sum_below col column_chars + 3 * row

place_table : all_below 52 (λ i. card_offset i == place (i % 8) (i / 8)) ≡ true
unfolding all_below place card_offset
place_table = refl

pub card_offset-place : (i : ℕ) → i < 52 → card_offset i ≡ place (i % 8) (i / 8)
card_offset-place i h = (==_iff _ _).0 (all_below_sound 52 i _ place_table h)

apart_table :
    all_below 52
      (λ i. card_offset i % 3 == 0 && all_below i (λ j. not (card_offset j == card_offset i)))
    ≡ true
unfolding all_below card_offset
apart_table = refl

card_offset_aligned : (i : ℕ) → i < 52 → card_offset i % 3 ≡ 0
card_offset_aligned i h = (==_iff _ _).0 (both_true _ _ (all_below_sound 52 i _ apart_table h)).0

card_offset_apart : (i j : ℕ) → i < 52 → j < i → card_offset j ≢ card_offset i
card_offset_apart i j h k =
    let others = (both_true (card_offset i % 3 == 0) _ (all_below_sound 52 i _ apart_table h)).1 in
    let differ = all_below_sound i j (λ j. not (card_offset j == card_offset i)) others k in
    λ e. ground (arith, differ, e)

-- The text after `n` rounds.
record Filled (game_number n : ℕ) (ret : ℕ → ℕ) : Type 0 where
  values : (i : ℕ) → i < n → ret (card_offset i) ≡ value_char (dealt game_number i)
  suits : (i : ℕ) → i < n → ret (card_offset i + 1) ≡ suit_char (dealt game_number i)
  others :
      (k : ℕ)
      → ((i : ℕ) → i < n → (card_offset i ≢ k) × (card_offset i + 1 ≢ k))
      → ret k ≡ template k

Filled-card_to_string :
    (game_number n : ℕ) (ret : ℕ → ℕ)
    → n < 52
    → Filled game_number n ret
    → Filled game_number (suc n) (card_to_string ret (card_offset n) (dealt game_number n))
unfolding card_to_string
Filled-card_to_string game_number n ret h filled = record {
  values = λ i q. elim (Bool-cases (i == n)) [
    | inl e ↦ ground arith
    | inr e ↦ ground (
      arith,
      filled.values i (ground arith),
      card_offset_apart n i h (ground arith),
      card_offset_aligned i (ground arith),
      card_offset_aligned n h,
    )
  ];
  suits = λ i q. elim (Bool-cases (i == n)) [
    | inl e ↦ ground arith
    | inr e ↦ ground (
      arith,
      filled.suits i (ground arith),
      card_offset_apart n i h (ground arith),
      card_offset_aligned i (ground arith),
      card_offset_aligned n h,
    )
  ];
  others =
      λ k away. ground (arith, away n (omega arith), filled.others k (λ i q. away i (omega arith)));
}

deal_rounds-Filled :
    (game_number n : ℕ) → n ≤ 52 → Filled game_number n (deal_rounds game_number n).ret
unfolding deal_rounds deal_start deal_round dealt
deal_rounds-Filled game_number zero h = record {
  values = λ i q. absurd (omega arith);
  suits = λ i q. absurd (omega arith);
  others = λ k away. refl;
}
deal_rounds-Filled game_number (suc n) h =
    Filled-card_to_string game_number n (deal_rounds game_number n).ret (omega arith)
      (deal_rounds-Filled game_number n (omega arith))

-- The text of a board that deals the cards to the eight columns in turn.
pub record IsBoard (text cards : ℕ → ℕ) : Type 0 where
  pub once : (c : ℕ) → c < 52 → sum_below 52 (λ i. equals c (cards i)) ≡ 1
  pub values : (i : ℕ) → i < 52 → text (place (i % 8) (i / 8)) ≡ value_char (cards i)
  pub suits : (i : ℕ) → i < 52 → text (place (i % 8) (i / 8) + 1) ≡ suit_char (cards i)
  pub others :
      (k : ℕ)
      → ((i : ℕ) → i < 52 → (place (i % 8) (i / 8) ≢ k) × (place (i % 8) (i / 8) + 1 ≢ k))
      → text k ≡ template k

-- For every game number, the text of `get_board_l` is a whole board: each of the 52 cards is dealt
-- once, the cards go to the eight columns in turn, each with the character of its value and that
-- of its suit, and all other characters are those of the template.
pub get_board_l-IsBoard : (game_number : ℕ) → IsBoard (get_board_l game_number) (dealt game_number)
unfolding get_board_l
get_board_l-IsBoard game_number =
    let filled = deal_rounds-Filled game_number 52 (omega arith) in
    record {
      once = dealt-once game_number;
      values = λ i h. rw (card_offset-place i h) at (filled.values i h);
      suits = λ i h. rw (card_offset-place i h) at (filled.suits i h);
      others = λ k away. filled.others k (λ i h. rw (← card_offset-place i h) at (away i h));
    }
