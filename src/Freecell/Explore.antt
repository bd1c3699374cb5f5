-- ===== src/Freecell/Explore.antt =====
-- A search by the tests of freecell.c, whatever its order, and the solution that is traced through
-- the states that it derived.
use investigate_lack_of_pgo.Prelude.{
  ℕ, ◌≤◌, ◌≡◌, ◌⊎◌, inl, inr, ap, subst, Option, some, List, [], ◌∷◌, All,
}
use investigate_lack_of_pgo.State.{State, Dims}
use investigate_lack_of_pgo.State.Canonize.{canonize, canonize_with_locs, init_locs}
use investigate_lack_of_pgo.Move.Stack.{MoveStack, max_num_moves}
use investigate_lack_of_pgo.Solution.{trace_flare_solution}
use investigate_lack_of_pgo.Solution.Chain.{
  Chain, origin, child, Solved, trace_flare_solution-Solved,
}
use investigate_lack_of_pgo.Solution.Plain.{chain_moves}
use investigate_lack_of_pgo.Freecell.Rules.{FollowsRules, FollowsRules-Rule, stacked_both}
use investigate_lack_of_pgo.Freecell.{Derived, Deriving}
use investigate_lack_of_pgo.Freecell.Loops.{Yields, Succeeds}
use investigate_lack_of_pgo.Freecell.Recorded.{Recorded, RecordedItem}
use investigate_lack_of_pgo.Freecell.Positions.Placed.{OneDeck}
use investigate_lack_of_pgo.Freecell.Empty.ToFreecells.{CleanFrom}
use investigate_lack_of_pgo.Freecell.Prune.{cards_left, raymond_prune}
use investigate_lack_of_pgo.Freecell.Prune.Pruned.{Pruned, raymond_prune-Pruned}
use investigate_lack_of_pgo.Freecell.Suited.{
  IsSuited, IsSuited-OneDeck, IsSuited-CleanFrom, canonize-IsSuited, replay-IsSuited,
}
use investigate_lack_of_pgo.Freecell.Founds.{
  move_top_stack_cards_to_founds, move_freecell_cards_to_founds,
}
use investigate_lack_of_pgo.Freecell.FoundsRecorded.{top_stack_cards-Yields, freecell_cards-Yields}
use investigate_lack_of_pgo.Freecell.Covered.{
  move_non_top_stack_cards_to_founds, non_top_stack_cards-Yields,
}
use investigate_lack_of_pgo.Freecell.OnStacks.{
  move_freecell_cards_on_top_of_stacks, freecell_cards_on_top-Yields,
}
use investigate_lack_of_pgo.Freecell.SameStack.{move_stack_cards_to_a_parent_on_the_same_stack}
use investigate_lack_of_pgo.Freecell.SameStack.Recorded.{same_stack-Yields}
use investigate_lack_of_pgo.Freecell.DifferentStacks.{move_stack_cards_to_different_stacks}
use investigate_lack_of_pgo.Freecell.DifferentStacks.Recorded.{different_stacks-Yields}
use investigate_lack_of_pgo.Freecell.DifferentParent.{move_cards_to_a_different_parent}
use investigate_lack_of_pgo.Freecell.DifferentParent.Recorded.{different_parent-Yields}
use investigate_lack_of_pgo.Freecell.FreeStacks.{move_sequences_to_free_stacks}
use investigate_lack_of_pgo.Freecell.FreeStacks.Recorded.{sequences_to_free_stacks-Yields}
use investigate_lack_of_pgo.Freecell.Vacant.{
  move_freecell_cards_to_empty_stack, empty_stack_into_freecells,
}
use investigate_lack_of_pgo.Freecell.VacantRecorded.{
  freecell_cards_to_empty_stack-Yields, empty_stack_into_freecells-Yields,
}
use investigate_lack_of_pgo.Freecell.Atomic.{
  atomic_move_card_to_empty_stack, atomic_move_card_to_parent, atomic_move_card_to_freecell,
  atomic_move_freecell_card_to_parent, atomic_move_freecell_card_to_empty_stack,
  card_to_empty_stack-Yields, card_to_parent-Yields, card_to_freecell-Yields,
  freecell_card_to_parent-Yields, freecell_card_to_empty_stack-Yields,
}

-- the tests of FreeCell in fc_solve_sfs_move_funcs
pub data FreecellTest : Type 0 where
  top_to_founds freecell_to_founds freecell_on_top non_top_to_founds different_stacks : FreecellTest
  free_stacks freecell_to_empty different_parent stack_into_freecells : FreecellTest
  same_stack : FreecellTest
  atomic_to_empty atomic_to_parent atomic_to_freecell : FreecellTest
  atomic_freecell_to_parent atomic_freecell_to_empty : FreecellTest

unfoldable pub run_test : FreecellTest → Dims → State → Option (List Derived)
unfolding move_top_stack_cards_to_founds move_freecell_cards_to_founds
    move_freecell_cards_on_top_of_stacks move_non_top_stack_cards_to_founds
    move_stack_cards_to_a_parent_on_the_same_stack move_stack_cards_to_different_stacks
    move_sequences_to_free_stacks move_freecell_cards_to_empty_stack
    move_cards_to_a_different_parent empty_stack_into_freecells atomic_move_card_to_empty_stack
    atomic_move_card_to_parent atomic_move_card_to_freecell atomic_move_freecell_card_to_parent
    atomic_move_freecell_card_to_empty_stack
run_test top_to_founds d st = move_top_stack_cards_to_founds d st
run_test freecell_to_founds d st = move_freecell_cards_to_founds d st
run_test freecell_on_top d st = move_freecell_cards_on_top_of_stacks d st
run_test non_top_to_founds d st = move_non_top_stack_cards_to_founds d st
run_test same_stack d st = move_stack_cards_to_a_parent_on_the_same_stack d st
run_test different_stacks d st = move_stack_cards_to_different_stacks d st
run_test free_stacks d st = move_sequences_to_free_stacks d st
run_test freecell_to_empty d st = move_freecell_cards_to_empty_stack d st
run_test different_parent d st = move_cards_to_a_different_parent d st
run_test stack_into_freecells d st = empty_stack_into_freecells d st
run_test atomic_to_empty d st = atomic_move_card_to_empty_stack d st
run_test atomic_to_parent d st = atomic_move_card_to_parent d st
run_test atomic_to_freecell d st = atomic_move_card_to_freecell d st
run_test atomic_freecell_to_parent d st = atomic_move_freecell_card_to_parent d st
run_test atomic_freecell_to_empty d st = atomic_move_freecell_card_to_empty_stack d st

-- A state as the tests take it: a freecell without a valid card is empty, and the columns have valid
-- cards, none twice.
pub record IsSuitable (d : Dims) (st : State) : Type 0 where
  pub clean : CleanFrom d st 0
  pub deck : OneDeck d st

-- From a state whose columns hold cards of one deck, and whose freecells are empty or hold a valid
-- card, a test ends with no assertion failed, and each state that it derives is the one that the
-- moves it recorded lead to from there. These moves are legal one after the other and follow the
-- rules for columns, sequences and their parents, and no column of the state is written in place.
pub run_test-Yields :
    (t : FreecellTest) (d : Dims) (st : State)
    → IsSuitable d st
    → Yields (RecordedItem d st) (run_test t d st)
unfolding run_test
run_test-Yields top_to_founds d st h = top_stack_cards-Yields d st
run_test-Yields freecell_to_founds d st h = freecell_cards-Yields d st
run_test-Yields freecell_on_top d st h = freecell_cards_on_top-Yields d st h.clean h.deck
run_test-Yields non_top_to_founds d st h = non_top_stack_cards-Yields d st h.clean
run_test-Yields same_stack d st h = same_stack-Yields d st h.clean h.deck
run_test-Yields different_stacks d st h = different_stacks-Yields d st h.clean h.deck
run_test-Yields free_stacks d st h = sequences_to_free_stacks-Yields d st h.clean
run_test-Yields freecell_to_empty d st h = freecell_cards_to_empty_stack-Yields d st
run_test-Yields different_parent d st h = different_parent-Yields d st h.clean h.deck
run_test-Yields stack_into_freecells d st h = empty_stack_into_freecells-Yields d st h.clean
run_test-Yields atomic_to_empty d st h = card_to_empty_stack-Yields d st
run_test-Yields atomic_to_parent d st h = card_to_parent-Yields d st
run_test-Yields atomic_to_freecell d st h = card_to_freecell-Yields d st h.clean
run_test-Yields atomic_freecell_to_parent d st h = freecell_card_to_parent-Yields d st
run_test-Yields atomic_freecell_to_empty d st h = freecell_card_to_empty_stack-Yields d st

-- one of the list
abbrev pub IsIn : Derived → List Derived → Type 0
IsIn item [] = ⊥
IsIn item (x ∷ items) = (x ≡ item) ⊎ IsIn item items

All-IsIn :
    (P : Derived → Type 0) (item : Derived) (items : List Derived)
    → All P items
    → IsIn item items
    → P item
All-IsIn P item [] h k = absurd k
All-IsIn P item (x ∷ items) (h, hs) (inl e) = subst P e h
All-IsIn P item (x ∷ items) (h, hs) (inr k) = All-IsIn P item items hs k

-- The states that are reached from the first one, each derived by a test or by the pruning from one
-- reached before and canonized, with the moves from each one's parent.
pub data Explored (d : Dims) (root : State) : List MoveStack → State → Type 0 where
  first : Explored d root [] root
  derive :
      {chain : List MoveStack} {st : State} (t : FreecellTest) (items : List Derived)
      (item : Derived)
      → Explored d root chain st
      → run_test t d st ≡ some items
      → IsIn item items
      → Explored d root (item.0.moves ∷ chain) (canonize d item.0.st)
  prune :
      {chain : List MoveStack} {st : State} (out : Deriving × ℕ)
      → Explored d root chain st
      → raymond_prune d st ≡ some out
      → 1 ≤ out.1
      → Explored d root (out.0.moves ∷ chain) (canonize d out.0.st)

pub IsSuited-IsSuitable : (d : Dims) (st : State) → IsSuited d st → IsSuitable d st
IsSuited-IsSuitable d st s = record {
  clean = IsSuited-CleanFrom d st s;
  deck = IsSuited-OneDeck d st s;
}

-- A recorded state of a suited one is suited, and goes on the chain.
Recorded-Chain :
    (d : Dims) (root : State) (chain : List MoveStack) (parent : State) (x : Deriving)
    → IsSuited d parent × Chain d (FollowsRules d) root chain parent
    → Recorded d parent x
    → IsSuited d (canonize d x.st)
      × Chain d (FollowsRules d) root (x.moves ∷ chain) (canonize d x.st)
Recorded-Chain d root chain parent x (suited, path) r = (
  canonize-IsSuited d x.st
      (subst (IsSuited d) r.replayed (replay-IsSuited d parent x.moves suited r.legal r.allowed)),
  subst (Chain d (FollowsRules d) root (x.moves ∷ chain)) (ap (canonize d) r.replayed)
      (child x.moves path (stacked_both d parent x.moves r.legal r.allowed)),
)

-- All that is reached is reached by legal moves, and fit for the tests.
Explored-Chain :
    (d : Dims) (root : State) (chain : List MoveStack) (st : State)
    → IsSuited d root
    → Explored d root chain st
    → IsSuited d st × Chain d (FollowsRules d) root chain st
Explored-Chain d root [] st s first = (s, origin)
Explored-Chain d root (m ∷ chain) st s (derive {st = parent} t items item before ran member) =
    let so_far = Explored-Chain d root chain parent s before in
    let all : All (RecordedItem d parent) items =
      subst (Yields (RecordedItem d parent)) ran
        (run_test-Yields t d parent (IsSuited-IsSuitable d parent so_far.0)) in
    Recorded-Chain d root chain parent item.0 so_far
      (All-IsIn (RecordedItem d parent) item items all member)
Explored-Chain d root (m ∷ chain) st s (prune {st = parent} out before ran moved) =
    let pruned : Pruned d parent (cards_left d parent) out =
      subst (Succeeds (Pruned d parent (cards_left d parent))) ran
        (raymond_prune-Pruned d parent) in
    Recorded-Chain d root chain parent out.0 (Explored-Chain d root chain parent s before)
      pruned.recorded

-- Let no card stand twice on the user's board, no card without a rank in its columns, and in its
-- freecells none but the empty card. Whatever tests of freecell.c for FreeCell a search runs, with the
-- pruning or without, and in whatever order: when it reaches a state from that board by at most 65,535 moves, one for each
-- state's canonizing included, then `trace_flare_solution` returns moves that are legal and follow the
-- rules (but for how many cards a sequence may have), one after the other on the user's board, and
-- lead to the state that was reached: with the same foundations, and the same columns and cards in the
-- freecells in some order.
pub trace_flare_solution-Explored :
    (d : Dims) (user final : State) (chain : List MoveStack)
    → IsSuited d user
    → chain_moves chain ≤ max_num_moves
    → Explored d (canonize d user) chain final
    → Solved d (FollowsRules d) user final (
        trace_flare_solution d
          (canonize_with_locs d user init_locs).0
          (canonize_with_locs d user init_locs).1
          chain)
trace_flare_solution-Explored d user final chain s room e =
    trace_flare_solution-Solved d (FollowsRules d) (FollowsRules-Rule d) user final chain room
      (Explored-Chain d (canonize d user) chain final (canonize-IsSuited d user s) e).1
