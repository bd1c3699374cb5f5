-- ===== src/Move/Played.antt =====
-- Stacks of moves that are all legal, or all of some other kind: in the order in which they are popped,
-- and in that in which they were pushed.
use investigate_lack_of_pgo.Prelude.{
  ◌+◌, ◌≤◌, ◌≡◌, refl, arith, [], ◌∷◌, none, some, length, ◌==◌, false,
}
use investigate_lack_of_pgo.State.{State, Dims}
use investigate_lack_of_pgo.Move.{Move, apply_move}
use investigate_lack_of_pgo.Move.Single.{IsLegal}
use investigate_lack_of_pgo.Move.Stack.{
  MoveStack, max_num_moves, move_stack_push, swallow_stack, pour, replay, play,
}

module _ (P : State → Move → Type 0) (d : Dims) where
  -- Popped one after the other, each move is one of `P` where it is made.
  abbrev pub PlayAll : State → MoveStack → Type 0
  PlayAll st [] = Unit {0}
  PlayAll st (m ∷ stack) = P st m × PlayAll (apply_move d st none m).0 stack

  -- Pushed as they were made, each move was one of `P` where it was made.
  abbrev pub StackedAll : State → MoveStack → Type 0
  StackedAll st [] = Unit {0}
  StackedAll st (m ∷ stack) = StackedAll st stack × P (replay d st stack) m

  pub pour-PlayAll :
      (st : State) (stack src_stack : MoveStack)
      → StackedAll st src_stack
      → PlayAll (replay d st src_stack) stack
      → PlayAll st (pour stack src_stack)
  unfolding pour replay
  pour-PlayAll st stack [] h k = k
  pour-PlayAll st stack (m ∷ src_stack) (h, last) k =
      pour-PlayAll st (m ∷ stack) src_stack h (last, k)

abbrev pub StackedLegal : Dims → State → MoveStack → Type 0
StackedLegal d st stack = StackedAll (IsLegal d) d st stack

-- To pop the one stack onto the other turns it round.
pub play-pour :
    (d : Dims) (st : State) (stack src_stack : MoveStack)
    → play d st (pour stack src_stack) ≡ play d (replay d st src_stack) stack
unfolding pour play replay
play-pour d st stack [] = refl
play-pour d st stack (m ∷ src_stack) = play-pour d st (m ∷ stack) src_stack

pub length-pour :
    (stack src_stack : MoveStack) → length (pour stack src_stack) ≡ length stack + length src_stack
unfolding pour
length-pour stack [] = omega arith
length-pour stack (m ∷ src_stack) = omega (arith, length-pour (m ∷ stack) src_stack)

-- With room for the moves, no push fails.
pub move_stack_push-fits :
    (stack : MoveStack) (m : Move)
    → length stack + 1 ≤ max_num_moves
    → move_stack_push stack m ≡ some (m ∷ stack)
unfolding move_stack_push
move_stack_push-fits stack m h =
    let room : (length stack == max_num_moves) ≡ false = ground arith in rw room refl

pub swallow_stack-pour :
    (stack src_stack : MoveStack)
    → length stack + length src_stack ≤ max_num_moves
    → swallow_stack stack src_stack ≡ some (pour stack src_stack)
unfolding swallow_stack pour
swallow_stack-pour stack [] h = refl
swallow_stack-pour stack (m ∷ src_stack) h =
    rw (move_stack_push-fits stack m (omega arith))
      (swallow_stack-pour (m ∷ stack) src_stack (omega arith))
