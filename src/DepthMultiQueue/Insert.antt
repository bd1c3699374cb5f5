-- ===== src/DepthMultiQueue/Insert.antt =====
-- What the queues by depth hold, and what an insertion does to it.
use investigate_lack_of_pgo.Prelude.{
  ℕ, zero, suc, ◌+◌, ◌-◌, ◌≤◌, ◌<◌, ◌≡◌, refl, sym, ap, subst, arith, ◌==◌, true, false, Bool-cases,
  inl, inr, some, List, [], ◌∷◌, ◌++◌, length, length-append, update, sum_below, sum_below_suc,
  sum_below-update,
}
use investigate_lack_of_pgo.DepthMultiQueue.{
  QueueOps, DepthMultiQueue, one_more, grow, put_item, insert, init,
}

-- What the operations on the queues keep: `Contains q xs` is to say that `q` has the items `xs`, the
-- oldest first.
pub record QueueLaws {Q : Type 0} (ops : QueueOps Q) : Type 1 where
  pub Contains : Q → List ℕ → Type 0
  pub new-Contains : (id : ℕ) → Contains (ops.new id) []
  pub insert-Contains :
      (q : Q) (xs : List ℕ) (x : ℕ) → Contains q xs → Contains (ops.insert q x) (xs ++ x ∷ [])
  pub extract-Contains :
      (q : Q) (xs : List ℕ) (x : ℕ)
      → Contains q (x ∷ xs)
      → ((ops.extract q).0 ≡ some x) × Contains (ops.extract q).1 xs
  pub num_items-Contains : (q : Q) (xs : List ℕ) → Contains q xs → ops.num_items q ≡ length xs

pub sum_below-empty :
    (n : ℕ) (c : ℕ → List ℕ) → ((d : ℕ) → c d ≡ []) → sum_below n (λ d. length (c d)) ≡ 0
unfolding sum_below
sum_below-empty zero c e = refl
sum_below-empty (suc n) c e = omega (arith, sum_below-empty n c e, ap length (e n))

module _ {Q : Type 0} (ops : QueueOps Q) (laws : QueueLaws ops) where
  -- The queue of each depth from the least to the greatest has the items of `c` at that depth, there
  -- are no others, and the counter says how many they are.
  pub record Filed (q : DepthMultiQueue Q) (c : ℕ → List ℕ) : Type 0 where
    pub ordered : q.min_depth ≤ q.max_depth
    pub at :
        (i : ℕ)
        → i ≤ q.max_depth - q.min_depth
        → laws.Contains (q.queues_by_depth i) (c (q.min_depth + i))
    pub below : (d : ℕ) → d < q.min_depth → c d ≡ []
    pub above : (d : ℕ) → q.max_depth < d → c d ≡ []
    pub counted : sum_below (q.max_depth + 1) (λ d. length (c d)) ≡ q.num_items_in_queue

  pub counted_more :
      (q : DepthMultiQueue Q) (c : ℕ → List ℕ)
      → Filed q c
      → sum_below (q.max_depth + 1 + 1) (λ d. length (c d)) ≡ q.num_items_in_queue
  counted_more q c h =
      let none_above = ap length (h.above (q.max_depth + 1) (omega arith)) in
      omega (arith, sum_below_suc (q.max_depth + 1) (λ d. length (c d)), none_above, h.counted)

  one_more-Filed : (q : DepthMultiQueue Q) (c : ℕ → List ℕ) → Filed q c → Filed (one_more ops q) c
  unfolding one_more
  one_more-Filed q c h =
      let ordered = h.ordered in
      record {
        ordered = omega arith;
        at = λ i k. elim (Bool-cases (q.max_depth + 1 - q.min_depth == i)) [
          | inl e ↦
              let no_items = h.above (q.min_depth + i) (ground arith) in
              rw e (
                subst (laws.Contains (ops.new q.next_queue_id)) (sym no_items)
                  (laws.new-Contains q.next_queue_id))
          | inr e ↦ rw e (h.at i (ground arith))
        ];
        below = h.below;
        above = λ d k. h.above d (omega arith);
        counted = counted_more q c h;
      }

  grow-Filed :
      (rounds : ℕ) (q : DepthMultiQueue Q) (c : ℕ → List ℕ)
      → Filed q c
      → Filed (grow ops rounds q) c
        × ((grow ops rounds q).max_depth ≡ q.max_depth + rounds)
        × ((grow ops rounds q).min_depth ≡ q.min_depth)
  unfolding grow one_more
  grow-Filed zero q c h = (h, omega arith, refl)
  grow-Filed (suc rounds) q c h =
      let (filed, max, min) = grow-Filed rounds (one_more ops q) c (one_more-Filed q c h) in
      (filed, omega arith, min)

  put_item-Filed :
      (q : DepthMultiQueue Q) (c : ℕ → List ℕ) (depth x : ℕ)
      → Filed q c
      → q.min_depth ≤ depth
      → depth ≤ q.max_depth
      → Filed (put_item ops q depth x) (update c depth (c depth ++ x ∷ []))
  unfolding put_item
  put_item-Filed q c depth x h lo hi = record {
    ordered = h.ordered;
    at = λ i k. elim (Bool-cases (depth - q.min_depth == i)) [
      | inl e ↦
          let there : (depth == q.min_depth + i) ≡ true = ground arith in
          let before =
            subst (λ d. laws.Contains (q.queues_by_depth (depth - q.min_depth)) (c d)) (omega arith)
              (h.at (depth - q.min_depth) (omega arith)) in
          rw (e, there) (laws.insert-Contains _ (c depth) x before)
      | inr e ↦
          let elsewhere : (depth == q.min_depth + i) ≡ false = ground arith in
          rw (e, elsewhere) (h.at i k)
    ];
    below = λ d k. (let other : (depth == d) ≡ false = ground arith in rw other (h.below d k));
    above = λ d k. (let other : (depth == d) ≡ false = ground arith in rw other (h.above d k));
    counted = omega (
      arith,
      sum_below-update length (q.max_depth + 1) c depth (c depth ++ x ∷ []) (omega arith),
      length-append (c depth) (x ∷ []),
      h.counted,
    );
  }

  -- Over queues that keep the order of their items: an item that is inserted at a depth that is not
  -- below the least is the last of its depth, and the others stay as they were, also where depths are
  -- added for it.
  pub insert-Filed :
      (q : DepthMultiQueue Q) (c : ℕ → List ℕ) (depth x : ℕ)
      → Filed q c
      → q.min_depth ≤ depth
      → Filed (insert ops q depth x) (update c depth (c depth ++ x ∷ []))
  unfolding insert
  insert-Filed q c depth x h lo =
      let (filed, max, min) = grow-Filed (depth - q.max_depth) q c h in
      put_item-Filed (grow ops (depth - q.max_depth) q) c depth x filed (omega arith) (omega arith)

  -- A new queue has its first item, at its depth.
  pub init-Filed :
      (memory : ℕ → Q) (depth x : ℕ)
      → Filed (init ops memory depth x) (update (λ d. []) depth (x ∷ []))
  unfolding init
  init-Filed memory depth x =
      insert-Filed _ (λ d. []) depth x
        (record {
          ordered = omega arith;
          at =
              λ i k. (let first : (0 == i) ≡ true = ground arith in rw first (laws.new-Contains 0));
          below = λ d k. refl;
          above = λ d k. refl;
          counted = sum_below-empty (depth + 1) (λ d. []) (λ d. refl);
        })
        (omega arith)
