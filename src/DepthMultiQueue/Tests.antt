-- ===== src/DepthMultiQueue/Tests.antt =====
-- The queues by depth over the linked lists of OffloadingQueue.
use investigate_lack_of_pgo.Prelude.{ℕ, ◌≤◌, arith, none, List, [], ◌∷◌, update}
use investigate_lack_of_pgo.OffloadingQueue.{Wrapper, OffloadingQueue}
use investigate_lack_of_pgo.OffloadingQueue
use investigate_lack_of_pgo.OffloadingQueue.Insert.{Holds, init-Holds, insert-Holds}
use investigate_lack_of_pgo.OffloadingQueue.Fifo.{extract-Holds}
use investigate_lack_of_pgo.DepthMultiQueue.{QueueOps, insert, init}
use investigate_lack_of_pgo.DepthMultiQueue.Insert.{QueueLaws, Filed, init-Filed, insert-Filed}
use investigate_lack_of_pgo.DepthMultiQueue.Least.{Extracted, extract-Extracted}

abbrev memory : ℕ → Wrapper
memory n = record { datum = 99; next = none }

abbrev lists : QueueOps OffloadingQueue
lists = record {
  new = λ id. OffloadingQueue.init memory;
  insert = OffloadingQueue.insert;
  extract = OffloadingQueue.extract;
  num_items = λ q. q.num_items_in_queue;
}

lists_laws : QueueLaws lists
lists_laws = record {
  Contains = Holds;
  new-Contains = λ id. init-Holds memory;
  insert-Contains = λ q xs x. insert-Holds q x xs;
  extract-Contains = λ q xs x. extract-Holds q x xs;
  num_items-Contains = λ q xs h. h.in_queue;
}

abbrev queues : ℕ → OffloadingQueue
queues i = OffloadingQueue.init memory

-- an item of depth 5, and one of depth 7 after it
abbrev filed : ℕ → List ℕ
filed = update (update (λ d. []) 5 (11 ∷ [])) 7 (12 ∷ [])

both-Filed : Filed lists lists_laws (insert lists (init lists queues 5 11) 7 12) filed
unfolding insert init
both-Filed =
    insert-Filed lists lists_laws (init lists queues 5 11) (update (λ d. []) 5 (11 ∷ [])) 7 12
      (init-Filed lists lists_laws queues 5 11) (omega arith)

some_items : 1 ≤ (insert lists (init lists queues 5 11) 7 12).num_items_in_queue
unfolding insert init
some_items = omega arith

above_least : (init lists queues 5 11).min_depth ≤ 7
unfolding insert init
above_least = omega arith

insert-Filed_example : Filed lists lists_laws (insert lists (init lists queues 5 11) 7 12) filed
insert-Filed_example =
    insert-Filed lists lists_laws (init lists queues 5 11) (update (λ d. []) 5 (11 ∷ [])) 7 12
      (init-Filed lists lists_laws queues 5 11) above_least

extract-Extracted_example :
    Extracted lists lists_laws (insert lists (init lists queues 5 11) 7 12) filed 0
extract-Extracted_example =
    extract-Extracted lists lists_laws (insert lists (init lists queues 5 11) 7 12) filed 0
      both-Filed some_items
