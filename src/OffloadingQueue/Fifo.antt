-- ===== src/OffloadingQueue/Fifo.antt =====
-- The linked lists of the queue give its items, the oldest first.
use investigate_lack_of_pgo.Prelude.{
  ℕ, ◌+◌, ◌≤◌, ◌≡◌, refl, ap, ap₂, subst, arith, if◌then◌else◌, ==_iff, Option, some, none, List,
  [], ◌∷◌, ◌++◌, ltb,
}
use investigate_lack_of_pgo.OffloadingQueue.{Wrapper, OffloadingQueue, init, extract, insert}
use investigate_lack_of_pgo.OffloadingQueue.Chains.{
  uses, Chain, items, last, update-Chain, items-update,
}
use investigate_lack_of_pgo.OffloadingQueue.Insert.{Holds, init-Holds, insert-Holds}

-- From a queue that holds no items, extract gives none and leaves it.
pub extract-empty : (q : OffloadingQueue) → Holds q [] → extract q ≡ (none, q)
unfolding extract
extract-empty q h = go h.nodes h.chain h.contents
  where
    go : (ns : List ℕ) → Chain q.heap q.queue_head ns → items q.heap ns ≡ [] → extract q ≡ (none, q)
    go [] c e = rw c refl
    go (n ∷ ns) c e = absurd (cc e)

-- the tail once the cell is gone
next_tail : OffloadingQueue → ℕ → Option ℕ
next_tail q item = elim (q.heap item).next [ none ↦ none | some n ↦ q.queue_tail ]

next_tail-last :
    (q : OffloadingQueue) (item : ℕ) (ns : List ℕ)
    → Chain q.heap (q.heap item).next ns
    → q.queue_tail ≡ last (item ∷ ns)
    → next_tail q item ≡ last ns
unfolding next_tail
next_tail-last q item [] c e = rw (c, next_tail) refl
next_tail-last q item (n ∷ ns) (c, _) e = rw (c, next_tail) e

extract-node :
    (q : OffloadingQueue) (x : ℕ) (xs : List ℕ) (h : Holds q (x ∷ xs)) (item : ℕ) (ns : List ℕ)
    → h.nodes ≡ item ∷ ns
    → q.queue_head ≡ some item
    → ((extract q).0 ≡ some x) × Holds (extract q).1 xs
unfolding extract next_tail
extract-node q x xs h item ns k e =
    let chain = subst (Chain q.heap q.queue_head) k h.chain in
    let contents : items q.heap (item ∷ ns) ≡ x ∷ xs =
      subst (λ r. items q.heap r ≡ x ∷ xs) k h.contents in
    let tail : q.queue_tail ≡ last (item ∷ ns) = subst (λ r. q.queue_tail ≡ last r) k h.tail in
    let once : (n : ℕ)
        → uses n (item ∷ ns) + uses n h.recycled ≤ (if ltb n q.next_ptr then 1 else 0) =
      subst (λ r. (n : ℕ) → uses n r + uses n h.recycled ≤ (if ltb n q.next_ptr then 1 else 0)) k
        h.once in
    let same = (==_iff item item).1 refl in
    let once_item = once item in
    let freed : Wrapper = record { datum = (q.heap item).datum; next = q.queue_recycle_bin } in
    let rest : items q.heap ns ≡ xs = cc contents in
    let length_xs = h.in_queue in
    let inserted = h.inserted in
    rw e (
      cc contents,
      record {
        nodes = ns;
        recycled = item ∷ h.recycled;
        chain = update-Chain q.heap item freed (q.heap item).next ns (ground arith) chain.1;
        contents = rw (items-update q.heap item freed ns (ground arith)) rest;
        tail = next_tail-last q item ns chain.1 tail;
        bin = (
          refl,
          rw same
              (update-Chain q.heap item freed q.queue_recycle_bin h.recycled (ground arith) h.bin),
        );
        once = λ n. omega (arith, once n);
        in_queue = omega arith;
        inserted = omega arith;
      },
    )

-- From a queue that holds items, extract gives the oldest and leaves a queue that holds the others:
-- they are in its list in order, no cell is in use twice in the list and the recycle bin, the tail is
-- the last cell, and the counters are right.
pub extract-Holds :
    (q : OffloadingQueue) (x : ℕ) (xs : List ℕ)
    → Holds q (x ∷ xs)
    → ((extract q).0 ≡ some x) × Holds (extract q).1 xs
extract-Holds q x xs h = go h.nodes refl h.chain h.contents
  where
    go :
        (ns : List ℕ)
        → h.nodes ≡ ns
        → Chain q.heap q.queue_head ns
        → items q.heap ns ≡ x ∷ xs
        → ((extract q).0 ≡ some x) × Holds (extract q).1 xs
    go [] k c e = absurd (cc e)
    go (item ∷ ns) k c e = extract-node q x xs h item ns k c.0

-- What the caller asks of the queue.
pub data Request : Type 0 where
  push : ℕ → Request
  pop : Request

-- what the queue answers to the extractions among the requests
unfoldable pub answers : OffloadingQueue → List Request → List (Option ℕ)
unfolding extract insert
answers q [] = []
answers q (push x ∷ rs) = answers (insert q x) rs
answers q (pop ∷ rs) = let (out, rest) = extract q in out ∷ answers rest rs

-- what a list does, where the items are taken from the front and come in at the end
unfoldable pub fifo : List ℕ → List Request → List (Option ℕ)
fifo xs [] = []
fifo xs (push x ∷ rs) = fifo (xs ++ x ∷ []) rs
fifo [] (pop ∷ rs) = none ∷ fifo [] rs
fifo (x ∷ xs) (pop ∷ rs) = some x ∷ fifo xs rs

answers-Holds :
    (q : OffloadingQueue) (xs : List ℕ) (rs : List Request) → Holds q xs → answers q rs ≡ fifo xs rs
unfolding answers fifo
answers-Holds q xs [] h = refl
answers-Holds q xs (push x ∷ rs) h = answers-Holds (insert q x) _ rs (insert-Holds q x xs h)
answers-Holds q [] (pop ∷ rs) h =
    rw (extract-empty q h) (ap (λ r. none ∷ r) (answers-Holds q [] rs h))
answers-Holds q (x ∷ xs) (pop ∷ rs) h =
    let (out, held) = extract-Holds q x xs h in
    ap₂ (λ o r. o ∷ r) out (answers-Holds (extract q).1 xs rs held)

-- A queue that starts empty, over any memory, answers any sequence of insertions and extractions
-- the way a list does that gives the oldest item first, and NULL where it is empty.
pub answers-fifo :
    (memory : ℕ → Wrapper) (rs : List Request) → answers (init memory) rs ≡ fifo [] rs
answers-fifo memory rs = answers-Holds (init memory) [] rs (init-Holds memory)
