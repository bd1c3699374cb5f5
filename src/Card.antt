-- ===== src/Card.antt =====
-- Cards: the one-byte representation of state.h (COMPACT_STATES and INDIRECT_STACK_STATES) and
-- card.c's conversions from and to text. A C string is the list of its characters before the NUL.
-- Card flipping is compiled out by config.h (FCS_WITHOUT_CARD_FLIPPING).
pub mod Laws
pub mod Text
mod Tests
use investigate_lack_of_pgo.Prelude.{
  ℕ, ◌+◌, ◌-◌, ◌*◌, ◌/◌, ◌%◌, ◌≤◌, Bool, true, false, bit_or, bit_and, ltb, leb, ◌==◌, ◌&&◌, ◌||◌,
  if◌then◌else◌, List, [], ◌∷◌, ◌++◌,
}

-- fcs_card_t
abbrev pub Card : Type 0
Card = ℕ

-- fcs_make_card
unfoldable pub make_card : ℕ → ℕ → Card
make_card rank suit = bit_or (rank * 4) suit

unfoldable pub card_rank : Card → ℕ
card_rank card = card / 4

unfoldable pub card_suit : Card → ℕ
card_suit card = card % 4

abbrev pub empty_card : Card
empty_card = 0

-- fcs_card_is_empty
unfoldable pub card_is_empty : Card → Bool
unfolding card_rank
card_is_empty card = card_rank card == 0

abbrev pub Text : Type 0
Text = List ℕ

-- toupper of the C locale
unfoldable pub to_upper : ℕ → ℕ
to_upper c = if leb b'a' c && leb c b'z' then c - 32 else c

-- does the text begin with the character?
unfoldable pub begins_with : ℕ → Text → Bool
begins_with d [] = false
begins_with d (c ∷ text) = c == d

-- the cases of the switch in fc_solve_u2p_rank that return
pub data RankCase : Type 0 where
  returns : ℕ → RankCase
  skips : RankCase

rank_case : ℕ → Text → RankCase
rank_case c text =
    if c == b' ' || c == 9
    then returns 0
    else if c == b'A'
    then returns 1
    else if c == b'J'
    then returns 11
    else if c == b'Q'
    then returns 12
    else if c == b'K'
    then returns 13
    else if c == b'1'
    then returns (if begins_with b'0' text then 10 else 1)
    else if c == b'T' || c == b'0'
    then returns 10
    else if leb b'2' c && leb c b'9'
    then returns (c - b'0')
    else skips

unfoldable pub u2p_rank : Text → ℕ
unfolding rank_case to_upper begins_with
u2p_rank [] = 0
u2p_rank (c ∷ text) = elim (rank_case (to_upper c) text) [ returns n ↦ n | skips ↦ u2p_rank text ]

unfoldable pub u2p_suit : Text → ℕ
unfolding to_upper
u2p_suit [] = 0
u2p_suit (c ∷ text) =
    let s = to_upper c in
    let rest = u2p_suit text in
    if s == b'H' || s == b' '
    then 0
    else if s == b'C'
    then 1
    else if s == b'D'
    then 2
    else if s == b'S'
    then 3
    else rest

unfoldable pub card_user2perl : Text → Card
unfolding make_card u2p_rank u2p_suit
card_user2perl text = make_card (u2p_rank text) (u2p_suit text)

-- card_map_3_10 and card_map_3_T
unfoldable pub card_map : Bool → ℕ → Text
card_map t rank =
    if rank == 0
    then b' ' ∷ []
    else if rank == 1
    then b'A' ∷ []
    else if rank == 10
    then (if t then b'T' ∷ [] else b'1' ∷ b'0' ∷ [])
    else if rank == 11
    then b'J' ∷ []
    else if rank == 12
    then b'Q' ∷ []
    else if rank == 13
    then b'K' ∷ []
    else (b'0' + rank) ∷ []

-- fc_solve_p2u_rank: the text, and `*rank_is_null`
unfoldable pub p2u_rank : ℕ → Bool → Text × Bool
unfolding card_map
p2u_rank rank_idx t =
    if leb rank_idx 13 then (card_map t rank_idx, rank_idx == 0) else (card_map t 0, true)

unfoldable pub p2u_suit : ℕ → Bool → Text
p2u_suit suit rank_is_null =
    if suit == 0
    then (if rank_is_null then b' ' ∷ [] else b'H' ∷ [])
    else if suit == 1
    then b'C' ∷ []
    else if suit == 2
    then b'D' ∷ []
    else if suit == 3
    then b'S' ∷ []
    else b' ' ∷ []

unfoldable pub card_perl2user : Card → Bool → Text
unfolding p2u_rank p2u_suit card_rank card_suit
card_perl2user card t =
    let (rank_text, rank_is_null) = p2u_rank (card_rank card) t in
    rank_text ++ p2u_suit (card_suit card) rank_is_null

-- fcs_is_parent_card: can `child` be placed on `parent`? (FCS_FREECELL_ONLY)
unfoldable pub is_parent_card : Card → Card → Bool
unfolding card_rank card_suit
is_parent_card child parent =
    card_rank child + 1 == card_rank parent
    && (if card_suit child % 2 == card_suit parent % 2 then false else true)
