-- ===== src/Solution/Overflow.antt =====
-- When the number of moves of a traced solution wraps around.
use investigate_lack_of_pgo.Prelude.{
  ◌+◌, ◌≤◌, ◌<◌, ◌≡◌, refl, arith, true, ◌==◌, leb, if◌then◌else◌, Bool-cases, inl, inr, some, none,
  List, [], ◌∷◌, length,
}
use investigate_lack_of_pgo.Move.{Move}
use investigate_lack_of_pgo.Move.Stack.{
  MoveStack, max_num_moves, move_stack_push, swallow_stack, pour,
}
use investigate_lack_of_pgo.Move.Played.{move_stack_push-fits, swallow_stack-pour, length-pour}
use investigate_lack_of_pgo.Solution.{canonizing, trace_loop, trace_solution}
use investigate_lack_of_pgo.Solution.Plain.{chain_moves, plain_trace, trace_loop-plain}

move_stack_push-full :
    (stack : MoveStack) (m : Move) → length stack ≡ max_num_moves → move_stack_push stack m ≡ none
unfolding move_stack_push
move_stack_push-full stack m h =
    let full : (length stack == max_num_moves) ≡ true = ground (arith, h) in rw full refl

swallow_stack-full :
    (stack src_stack : MoveStack)
    → length stack ≤ max_num_moves
    → max_num_moves < length stack + length src_stack
    → swallow_stack stack src_stack ≡ none
unfolding swallow_stack
swallow_stack-full stack [] h k = absurd (omega (arith, h, k))
swallow_stack-full stack (m ∷ src_stack) h k = elim (Bool-cases (length stack == max_num_moves)) [
  | inl e ↦ rw (move_stack_push-full stack m (ground (arith, e))) refl
  | inr e ↦
      rw (move_stack_push-fits stack m (ground (arith, e, h)))
        (swallow_stack-full (m ∷ stack) src_stack (ground (arith, e, h)) (omega (arith, k)))
]

trace_loop-full :
    (solution_moves : MoveStack) (chain : List MoveStack)
    → length solution_moves ≤ max_num_moves
    → max_num_moves < length solution_moves + chain_moves chain
    → trace_loop solution_moves chain ≡ none
unfolding trace_loop
trace_loop-full solution_moves [] h k = absurd (omega (arith, h, k))
trace_loop-full solution_moves (moves ∷ chain) h k =
    let before = canonizing ∷ solution_moves in
    elim (Bool-cases (length solution_moves == max_num_moves)) [
      | inl e ↦ rw (move_stack_push-full solution_moves canonizing (ground (arith, e))) refl
      | inr e ↦
          let pushed = move_stack_push-fits solution_moves canonizing (ground (arith, e, h)) in
          elim (Bool-cases (leb (length before + length moves) max_num_moves)) [
            | inl fits ↦
                let room : length before + length moves ≤ max_num_moves = ground (arith, fits) in
                rw (pushed, swallow_stack-pour before moves room)
                  (trace_loop-full (pour before moves) chain
                    (omega (arith, room, length-pour before moves))
                    (omega (arith, k, length-pour before moves)))
            | inr over ↦
                rw
                  (
                    pushed,
                    swallow_stack-full before moves (ground (arith, e, h)) (ground (arith, over)),
                  )
                  refl
          ]
    ]

-- For any chain, `trace_solution` returns the chain's moves, a canonizing one for each state included,
-- exactly when there are at most 65,535 of them; with more, it writes in front of the vector.
pub trace_solution-bounded :
    (chain : List MoveStack)
    → trace_solution chain
      ≡ (if leb (chain_moves chain) max_num_moves then some (plain_trace [] chain) else none)
unfolding trace_solution
trace_solution-bounded chain = elim (Bool-cases (leb (chain_moves chain) max_num_moves)) [
  | inl e ↦ rw e (trace_loop-plain [] chain (ground (arith, e)))
  | inr e ↦ rw e (trace_loop-full [] chain (omega arith) (ground (arith, e)))
]
