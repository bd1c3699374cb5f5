-- ===== src/Solution/Chain.antt =====
-- From the chain of states that a scan found to moves on the user's board.
use investigate_lack_of_pgo.Prelude.{
  ℕ, ◌≡◌, refl, ◌∙◌, sym, subst, subst₂, ap, List, [], ◌∷◌, Option, none, some, ◌≤◌,
}
use investigate_lack_of_pgo.State.{State, Dims}
use investigate_lack_of_pgo.State.Canonize.{
  Locs, canonize, canonize_with_locs, canonize_with_locs-same, init_locs, SameUpToOrder,
}
use investigate_lack_of_pgo.Move.{Move, MoveType, apply_move}
use investigate_lack_of_pgo.Move.Stack.{MoveStack, max_num_moves, pour, replay, play}
use investigate_lack_of_pgo.Move.Played.{PlayAll, StackedAll, play-pour, pour-PlayAll}
use investigate_lack_of_pgo.Solution.{
  Normalizing, normalizing_from, canonizing, trace_flare_solution, apply_with_locs,
}
use investigate_lack_of_pgo.Solution.Plain.{
  plain_step, plain_loop, plain_normalize, plain_trace, chain_moves, trace_flare_solution-plain,
}
use investigate_lack_of_pgo.Solution.Rules.{Rule, move_of}
use investigate_lack_of_pgo.Solution.Follow.{
  Follows, Follows-SameUpToOrder, init_locs-Follows, canonize_with_locs-Follows,
}
use investigate_lack_of_pgo.Solution.Steps.{IsNormalizing, plain_step-IsNormalizing}

-- The states that a scan reaches from the first one, with the moves from each state's parent, the
-- last state's first: a state is what its parent's moves lead to, canonized, and these are moves of
-- `P` where they are made.
pub data Chain (d : Dims) (P : State → Move → Type 0) (root : State)
    : List MoveStack → State → Type 0 where
  origin : Chain d P root [] root
  child :
      {chain : List MoveStack} {parent : State} (moves : MoveStack)
      → Chain d P root chain parent
      → StackedAll P d parent moves
      → Chain d P root (moves ∷ chain) (canonize d (replay d parent moves))

-- The moves can be made one after the other from the user's board, each a move of `P` where it is
-- made, and lead from there to the final state, but for the order of its columns and of its
-- freecells.
pub record Solves (d : Dims) (P : State → Move → Type 0) (user final : State) (moves : MoveStack)
    : Type 0 where
  pub ruled : PlayAll P d user moves
  pub foundations : final.foundations ≡ (play d user moves).foundations
  pub reached : SameUpToOrder d final (play d user moves)

-- That there are such moves, and no push on the way to them fails.
pub record Solved (d : Dims) (P : State → Move → Type 0) (user final : State) (o : Option MoveStack)
    : Type 0 where
  pub moves : MoveStack
  pub returned : o ≡ some moves
  pub solves : Solves d P user final moves

-- The dynamic state goes where the moves lead: the locations do not change what a move does to it.
step_of_type-state :
    (d : Dims) (n : Normalizing) (t : MoveType) (src dest num : ℕ)
    → (plain_step d n (move_of t src dest num)).dynamic_state
      ≡ (apply_move d n.dynamic_state none (move_of t src dest num)).0
unfolding plain_step apply_with_locs apply_move
step_of_type-state d n MoveType.canonize_move src dest num =
    canonize_with_locs-same d n.dynamic_state n.locs
step_of_type-state d n _ src dest num = refl

module _ (d : Dims) (P : State → Move → Type 0) (rule : Rule d P) where
  -- The traced moves are of `P` from the first state, and lead where the given ones lead from the
  -- last one.
  record Traced (root st : State) (solution traced : MoveStack) : Type 0 where
    ruled : PlayAll P d root traced
    reached : play d root traced ≡ play d st solution

  plain_trace-Traced :
      (root : State) (chain : List MoveStack) (st : State) (solution : MoveStack)
      → Chain d P root chain st
      → PlayAll P d st solution
      → Traced root st solution (plain_trace solution chain)
  unfolding plain_trace apply_move play
  plain_trace-Traced root [] st solution origin h = record { ruled = h; reached = refl }
  plain_trace-Traced root (m ∷ parents) st solution (child {parent = parent} moves before ruled) h =
      let onward = canonizing ∷ solution in
      let canonized : PlayAll P d (replay d parent moves) onward =
        (rule.canonizes (replay d parent moves), h) in
      let t =
        plain_trace-Traced root parents parent (pour onward moves) before
          (pour-PlayAll P d parent onward moves ruled canonized) in
      record { ruled = t.ruled; reached = t.reached ∙ play-pour d parent onward moves }

  plain_loop-IsNormalizing :
      (init : State) (n : Normalizing) (moves : MoveStack)
      → IsNormalizing d P init n
      → PlayAll P d n.dynamic_state moves
      → IsNormalizing d P init (plain_loop d n moves)
        × ((plain_loop d n moves).dynamic_state ≡ play d n.dynamic_state moves)
  unfolding plain_loop play
  plain_loop-IsNormalizing init n [] v h = (v, refl)
  plain_loop-IsNormalizing init n (m ∷ moves) v (ruled, h) =
      let stepped = step_of_type-state d n m.type m.src m.dest m.num_cards_in_seq in
      let rest =
        plain_loop-IsNormalizing init (plain_step d n m) moves
          (plain_step-IsNormalizing d P rule init n v m ruled)
          (subst (λ s. PlayAll P d s moves) (sym stepped) h) in
      (rest.0, rest.1 ∙ ap (λ s. play d s moves) stepped)

  plain_normalize-Solves :
      (user st : State) (l : Locs) (moves : MoveStack)
      → Follows d user st l
      → PlayAll P d st moves
      → Solves d P user (play d st moves) (plain_normalize d moves st l)
  unfolding plain_normalize play replay
  plain_normalize-Solves user st l moves f h =
      let first = normalizing_from st l in
      let done = plain_loop-IsNormalizing user first moves (record { follows = f; ruled = tt }) h in
      let n = plain_loop d first moves in
      let turned = play-pour d user [] n.temp_moves in
      let end : Follows d (play d user (pour [] n.temp_moves)) (play d st moves) n.locs =
        subst₂ (λ u s. Follows d u s n.locs) (sym turned) done.1 done.0.follows in
      record {
        ruled = pour-PlayAll P d user [] n.temp_moves done.0.ruled tt;
        foundations = end.foundations;
        reached = Follows-SameUpToOrder d _ _ n.locs end;
      }

-- Let `P` be what a game asks of a move, such that its moves are legal, and normalized ones are of
-- `P` with the moves that they are made of. For every chain of states from the user's board,
-- canonized with fresh locations, each reached from its parent by moves of `P`, and with at most
-- 65,535 moves, one for each state's canonizing included: `trace_flare_solution` returns moves that
-- are of `P` one after the other from the board as the user gave it, and lead to the chain's last
-- state: with the same foundations, and the same columns and cards in the freecells, each as often,
-- in some order.
pub trace_flare_solution-Solved :
    (d : Dims) (P : State → Move → Type 0) (rule : Rule d P) (user final : State)
    (chain : List MoveStack)
    → chain_moves chain ≤ max_num_moves
    → Chain d P (canonize d user) chain final
    → Solved d P user final (
        trace_flare_solution d
          (canonize_with_locs d user init_locs).0
          (canonize_with_locs d user init_locs).1
          chain)
unfolding play
trace_flare_solution-Solved d P rule user final chain room c =
    let (st, l) = canonize_with_locs d user init_locs in
    let given =
      subst (λ s. Chain d P s chain final) (sym (canonize_with_locs-same d user init_locs)) c in
    let t = plain_trace-Traced d P rule st chain final [] given tt in
    let f = canonize_with_locs-Follows d user user init_locs (init_locs-Follows d user) in
    record {
      moves = plain_normalize d (plain_trace [] chain) st l;
      returned = trace_flare_solution-plain d st l chain room;
      solves =
          subst (λ s. Solves d P user s (plain_normalize d (plain_trace [] chain) st l)) t.reached
            (plain_normalize-Solves d P rule user st l (plain_trace [] chain) f t.ruled);
    }
