-- ===== src/Pqueue/Tests.antt =====
-- Runs of the priority queue at concrete inputs.
use investigate_lack_of_pgo.Prelude.{
  ℕ, ◌-◌, ◌≡◌, refl, arith, Option, some, none, ◌>>=◌, List, [], ◌∷◌,
}
use investigate_lack_of_pgo.Prelude.Int.{ℤ, pos, negsuc}
use investigate_lack_of_pgo.Pqueue.{Element, Pqueue, init, push, pop}
use investigate_lack_of_pgo.Pqueue.Cells.{IsValid}
use investigate_lack_of_pgo.Pqueue.Push.{Pushed, push-Pushed}
use investigate_lack_of_pgo.Pqueue.Pop.{Popped, pop-Popped}

-- the number stands for the pointer
abbrev element : ℕ → ℤ → Element ℕ
element v r = record { val = v; rating = r }

abbrev fresh : Pqueue ℕ
fresh = init 1 (λ j. element 0 (pos 0))

-- three pushes, which outgrow the first cells, and the values of four pops
abbrev session : Option (List (Option ℕ))
session = do
  a ← push fresh 10 (pos 5)
  b ← push a 11 (negsuc 3)
  c ← push b 12 (pos 8)
  (w, d) ← pop c
  (x, e) ← pop d
  (y, f) ← pop e
  (z, g) ← pop f
  some (w ∷ x ∷ y ∷ z ∷ [])

session_result : session ≡ some (some 12 ∷ some 10 ∷ some 11 ∷ none ∷ [])
unfolding init push pop
session_result = refl

-- cell 1 the greatest, then its children
abbrev triple : Pqueue ℕ
triple = record { max_size = 3; current_size = 3; elements = λ j. element j (pos (9 - j)) }

triple-IsValid : IsValid triple
triple-IsValid = record { heap = λ j a b. omega arith; room = omega arith }

push-Pushed_example :
    (pq' : Pqueue ℕ) × (push triple 10 (pos 100) ≡ some pq')
    × Pushed triple (element 10 (pos 100)) pq'
push-Pushed_example = push-Pushed triple 10 (pos 100) triple-IsValid (omega arith)

pop-Popped_example : (out : Option ℕ × Pqueue ℕ) × (pop triple ≡ some out) × Popped triple out
pop-Popped_example = pop-Popped triple triple-IsValid (omega arith)
