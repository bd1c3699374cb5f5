-- ===== src/OffloadingQueue/Insert.antt =====
-- What the queue holds, and that a new item is the last.
use investigate_lack_of_pgo.Prelude.{
  ℕ, ◌+◌, ◌≤◌, ◌≡◌, refl, sym, subst, ◌∙◌, arith, ◌==◌, if◌then◌else◌, true, Bool-cases, inl, inr,
  ==_iff, Option, some, none, List, [], ◌∷◌, ◌++◌, length, length-append, update, ltb,
}
use investigate_lack_of_pgo.OffloadingQueue.{
  Wrapper, OffloadingQueue, init, new_item, append_item, insert,
}
use investigate_lack_of_pgo.OffloadingQueue.Chains.{
  uses, Chain, items, last, update-Chain, items-update, link-Chain, items-link, items-append,
  uses-append, last-append, uses-last,
}

-- The queue holds the items: its list has them, in cells `nodes`, its recycle bin has the cells
-- `recycled`, no cell is in use twice, and the counters say how many items there are.
pub record Holds (q : OffloadingQueue) (xs : List ℕ) : Type 0 where
  pub nodes : List ℕ
  pub recycled : List ℕ
  pub chain : Chain q.heap q.queue_head nodes
  pub contents : items q.heap nodes ≡ xs
  pub tail : q.queue_tail ≡ last nodes
  pub bin : Chain q.heap q.queue_recycle_bin recycled
  pub once : (n : ℕ) → uses n nodes + uses n recycled ≤ (if ltb n q.next_ptr then 1 else 0)
  pub in_queue : q.num_items_in_queue ≡ length xs
  pub inserted : q.num_inserted ≡ q.num_items_in_queue + q.num_extracted

-- A new cell is in no list, and what the queue holds is as before.
record Taken (q : OffloadingQueue) (item : ℕ) (xs : List ℕ) : Type 0 where
  held : Holds q xs
  unused : uses item (held.nodes) + uses item (held.recycled) ≡ 0
  counted : ltb item q.next_ptr ≡ true

pub init-Holds : (memory : ℕ → Wrapper) → Holds (init memory) []
unfolding init
init-Holds memory = record {
  nodes = [];
  recycled = [];
  chain = refl;
  contents = refl;
  tail = refl;
  bin = refl;
  once = λ n. ground arith;
  in_queue = refl;
  inserted = omega arith;
}

recycled-Taken :
    (q : OffloadingQueue) (xs : List ℕ) (h : Holds q xs) (item : ℕ) (rest : List ℕ)
    → q.queue_recycle_bin ≡ some item
    → h.recycled ≡ item ∷ rest
    → Taken (new_item q).1 (new_item q).0 xs
unfolding new_item
recycled-Taken q xs h item rest e k =
    let bin = subst (Chain q.heap q.queue_recycle_bin) k h.bin in
    let once : (n : ℕ)
        → uses n h.nodes + uses n (item ∷ rest) ≤ (if ltb n q.next_ptr then 1 else 0) =
      subst (λ r. (n : ℕ) → uses n h.nodes + uses n r ≤ (if ltb n q.next_ptr then 1 else 0)) k
        h.once in
    let same = (==_iff item item).1 refl in
    let once_item = once item in
    rw e (record {
      held = record {
        nodes = h.nodes;
        recycled = rest;
        chain = h.chain;
        contents = h.contents;
        tail = h.tail;
        bin = bin.1;
        once = λ n. omega (arith, once n);
        in_queue = h.in_queue;
        inserted = h.inserted;
      };
      unused = ground arith;
      counted = ground arith;
    })

allocated-Taken :
    (q : OffloadingQueue) (xs : List ℕ) (h : Holds q xs)
    → q.queue_recycle_bin ≡ none
    → h.recycled ≡ []
    → Taken (new_item q).1 (new_item q).0 xs
unfolding new_item
allocated-Taken q xs h e k =
    let once_new = h.once q.next_ptr in
    rw e (record {
      held = record {
        nodes = h.nodes;
        recycled = h.recycled;
        chain = h.chain;
        contents = h.contents;
        tail = h.tail;
        bin = subst (λ p. Chain q.heap p h.recycled) e h.bin;
        once = λ n. ground (arith, h.once n);
        in_queue = h.in_queue;
        inserted = h.inserted;
      };
      unused = ground arith;
      counted = ground arith;
    })

new_item-Taken :
    (q : OffloadingQueue) (xs : List ℕ) → Holds q xs → Taken (new_item q).1 (new_item q).0 xs
new_item-Taken q xs h = go h.recycled refl h.bin
  where
    go :
        (r : List ℕ)
        → h.recycled ≡ r
        → Chain q.heap q.queue_recycle_bin r
        → Taken (new_item q).1 (new_item q).0 xs
    go [] k bin = allocated-Taken q xs h bin k
    go (item ∷ rest) k bin = recycled-Taken q xs h item rest bin.0 k

once-append_item :
    (q : OffloadingQueue) (item : ℕ) (xs : List ℕ) (t : Taken q item xs) (n : ℕ)
    → uses n (t.held.nodes ++ item ∷ []) + uses n t.held.recycled
      ≤ (if ltb n q.next_ptr then 1 else 0)
once-append_item q item xs t n =
    let appended = uses-append n t.held.nodes (item ∷ []) in
    let before = t.held.once n in
    let unused = t.unused in
    let counted = t.counted in
    elim (Bool-cases (n == item)) [
      | inl k ↦
          let at_item : uses n t.held.nodes + uses n t.held.recycled ≡ 0 =
            rw ((==_iff n item).0 k) unused in
          let counted_n : ltb n q.next_ptr ≡ true = rw ((==_iff n item).0 k) counted in ground arith
      | inr k ↦ ground arith
    ]

append_item-empty :
    (q : OffloadingQueue) (item x : ℕ) (xs : List ℕ) (t : Taken q item xs)
    → q.queue_tail ≡ none
    → t.held.nodes ≡ []
    → Holds (append_item q item x) (xs ++ x ∷ [])
unfolding append_item
append_item-empty q item x xs t e k =
    let h = t.held in
    let same = (==_iff item item).1 refl in
    let unused = t.unused in
    let written = update q.heap item (record { datum = x; next = none }) in
    let end_next : (written item).next ≡ none = rw same refl in
    rw e (record {
      nodes = h.nodes ++ item ∷ [];
      recycled = h.recycled;
      chain = subst (λ ns. Chain written (some item) (ns ++ item ∷ [])) (sym k) (refl, end_next);
      contents = rw (
        items-append written h.nodes (item ∷ []),
        items-update q.heap item (record { datum = x; next = none }) h.nodes (omega arith),
        h.contents,
        same,
      );
      tail = sym (last-append h.nodes item);
      bin =
          update-Chain q.heap item (record { datum = x; next = none }) q.queue_recycle_bin
            h.recycled (omega arith) h.bin;
      once = once-append_item q item xs t;
      in_queue = omega (arith, h.in_queue, length-append xs (x ∷ []));
      inserted = omega (arith, h.inserted);
    })

append_item-more :
    (q : OffloadingQueue) (item x : ℕ) (xs : List ℕ) (t : Taken q item xs) (end : ℕ)
    → q.queue_tail ≡ some end
    → Holds (append_item q item x) (xs ++ x ∷ [])
unfolding append_item
append_item-more q item x xs t end e =
    let h = t.held in
    let same = (==_iff item item).1 refl in
    let unused = t.unused in
    let counted = t.counted in
    let written = update q.heap item (record { datum = x; next = none }) in
    let last_is : last h.nodes ≡ some end = sym h.tail ∙ e in
    let once_end = h.once end in
    let least = uses-last end h.nodes last_is in
    let end_next : (written item).next ≡ none = rw same refl in
    rw e (record {
      nodes = h.nodes ++ item ∷ [];
      recycled = h.recycled;
      chain =
          link-Chain written item end end_next q.queue_head h.nodes (omega arith) (ground arith)
            last_is
            (update-Chain q.heap item (record { datum = x; next = none }) q.queue_head h.nodes
              (omega arith) h.chain);
      contents = rw (
        items-link written item end (h.nodes ++ item ∷ []),
        items-append written h.nodes (item ∷ []),
        items-update q.heap item (record { datum = x; next = none }) h.nodes (omega arith),
        h.contents,
        same,
      );
      tail = sym (last-append h.nodes item);
      bin =
          update-Chain written end (record { datum = (written end).datum; next = some item })
            q.queue_recycle_bin h.recycled (ground arith)
            (update-Chain q.heap item (record { datum = x; next = none }) q.queue_recycle_bin
              h.recycled (omega arith) h.bin);
      once = once-append_item q item xs t;
      in_queue = omega (arith, h.in_queue, length-append xs (x ∷ []));
      inserted = omega (arith, h.inserted);
    })

last-none : (ns : List ℕ) → last ns ≡ none → ns ≡ []
last-none [] e = refl
last-none (n ∷ []) e = absurd (cc e)
last-none (n ∷ m ∷ ns) e = absurd (cc (last-none (m ∷ ns) e))

append_item-Holds :
    (q : OffloadingQueue) (item x : ℕ) (xs : List ℕ)
    → Taken q item xs
    → Holds (append_item q item x) (xs ++ x ∷ [])
append_item-Holds q item x xs t = go q.queue_tail refl
  where
    go : (p : Option ℕ) → q.queue_tail ≡ p → Holds (append_item q item x) (xs ++ x ∷ [])
    go (some end) e = append_item-more q item x xs t end e
    go none e = append_item-empty q item x xs t e (last-none t.held.nodes (sym t.held.tail ∙ e))

-- An item that is inserted is the last of those that the queue holds.
pub insert-Holds :
    (q : OffloadingQueue) (x : ℕ) (xs : List ℕ) → Holds q xs → Holds (insert q x) (xs ++ x ∷ [])
unfolding insert
insert-Holds q x xs h = append_item-Holds (new_item q).1 (new_item q).0 x xs (new_item-Taken q xs h)
