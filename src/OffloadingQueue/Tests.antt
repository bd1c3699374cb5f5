-- ===== src/OffloadingQueue/Tests.antt =====
-- Concrete runs of the queue.
use investigate_lack_of_pgo.Prelude.{ℕ, ◌≡◌, refl, some, none, List, [], ◌∷◌}
use investigate_lack_of_pgo.OffloadingQueue.{Wrapper, init, extract, insert}
use investigate_lack_of_pgo.OffloadingQueue.Insert.{Holds, init-Holds, insert-Holds}
use investigate_lack_of_pgo.OffloadingQueue.Fifo.{
  Request, answers, fifo, answers-fifo, extract-Holds,
}

abbrev memory : ℕ → Wrapper
memory n = record { datum = 99; next = some 7 }

-- the fourth item takes the cell of the first
abbrev requests : List Request
requests =
    Request.push 11
    ∷ Request.push 12
    ∷ Request.pop
    ∷ Request.push 13
    ∷ Request.pop
    ∷ Request.pop
    ∷ Request.pop
    ∷ Request.push 14
    ∷ Request.pop
    ∷ []

answered : answers (init memory) requests ≡ some 11 ∷ some 12 ∷ some 13 ∷ none ∷ some 14 ∷ []
unfolding answers init insert extract
answered = refl

answers-fifo_example : answers (init memory) requests ≡ fifo [] requests
answers-fifo_example = answers-fifo memory requests

extract-Holds_example :
    ((extract (insert (init memory) 11)).0 ≡ some 11)
    × Holds (extract (insert (init memory) 11)).1 []
extract-Holds_example =
    extract-Holds (insert (init memory) 11) 11 []
      (insert-Holds (init memory) 11 [] (init-Holds memory))
