-- ===== src/DepthMultiQueue/Least.antt =====
-- An item that is extracted is the oldest of the least depth that has any.
use investigate_lack_of_pgo.Prelude.{
  ℕ, zero, suc, ◌+◌, ◌-◌, ◌≤◌, ◌<◌, ◌≡◌, refl, sym, ◌∙◌, ap, subst, arith, ◌==◌, true, false,
  Bool-cases, inl, inr, ==_iff, Option, some, List, [], ◌∷◌, length, update, ltb, sum_below-update,
}
use investigate_lack_of_pgo.DepthMultiQueue.{
  QueueOps, DepthMultiQueue, next_depth, skip_empty, take_item, extract,
}
use investigate_lack_of_pgo.DepthMultiQueue.Insert.{QueueLaws, Filed, sum_below-empty, counted_more}

length-zero : (xs : List ℕ) → length xs ≡ 0 → xs ≡ []
length-zero [] e = refl
length-zero (x ∷ xs) e = absurd (omega arith)

module _ {Q : Type 0} (ops : QueueOps Q) (laws : QueueLaws ops) where
  next_depth-Filed :
      (q : DepthMultiQueue Q) (c : ℕ → List ℕ)
      → Filed ops laws q c
      → c q.min_depth ≡ []
      → Filed ops laws (next_depth ops q) c
  unfolding next_depth
  next_depth-Filed q c h e =
      let ordered = h.ordered in
      record {
        ordered = omega arith;
        at = λ i k. elim (Bool-cases (i == q.max_depth - q.min_depth)) [
          | inl l ↦
              let no_items = h.above (q.min_depth + 1 + i) (ground arith) in
              let first : c (q.min_depth + 0) ≡ [] = ap c (omega arith) ∙ e in
              rw l (
                subst (laws.Contains (q.queues_by_depth 0)) (first ∙ sym no_items)
                  (h.at 0 (omega arith)))
          | inr l ↦
              let inside : ltb i (q.max_depth - q.min_depth) ≡ true = ground arith in
              rw (l, inside)
                (subst (λ d. laws.Contains (q.queues_by_depth (i + 1)) (c d)) (omega arith)
                  (h.at (i + 1) (ground arith)))
        ];
        below = λ d k. elim (Bool-cases (d == q.min_depth)) [
          | inl l ↦ ap c ((==_iff _ _).0 l) ∙ e
          | inr l ↦ h.below d (ground arith)
        ];
        above = λ d k. h.above d (omega arith);
        counted = counted_more ops laws q c h;
      }

  -- what the loop finds
  record Found (o : Option (DepthMultiQueue Q)) (c : ℕ → List ℕ) : Type 0 where
    found : DepthMultiQueue Q
    run : o ≡ some found
    filed : Filed ops laws found c
    has_items : 1 ≤ length (c found.min_depth)

  skip_empty-Found :
      (fuel m : ℕ) (q : DepthMultiQueue Q) (c : ℕ → List ℕ)
      → Filed ops laws q c
      → ((d : ℕ) → m < d → c d ≡ [])
      → 1 ≤ q.num_items_in_queue
      → m + 1 ≤ q.min_depth + fuel
      → Found (skip_empty ops fuel q) c
  unfolding skip_empty
  skip_empty-Found zero m q c h beyond some_items enough =
      let no_items : (d : ℕ) → c d ≡ [] = λ d. (elim (Bool-cases (ltb d q.min_depth)) [
        | inl l ↦ h.below d (ground arith)
        | inr l ↦ beyond d (ground arith)
      ]) in
      absurd (omega (arith, sum_below-empty (q.max_depth + 1) c no_items, h.counted))
  skip_empty-Found (suc fuel) m q c h beyond some_items enough =
      let count = laws.num_items-Contains (q.queues_by_depth 0) _ (h.at 0 (omega arith)) in
      let here : c (q.min_depth + 0) ≡ c q.min_depth = ap c (omega arith) in
      let count_here = ap length here in
      elim (Bool-cases (ops.num_items (q.queues_by_depth 0) == 0)) [
        | inl k ↦
            let empty = length-zero (c q.min_depth) (ground arith) in
            rw k (
              skip_empty-Found fuel m (next_depth ops q) c (next_depth-Filed q c h empty) beyond
                some_items (omega arith))
        | inr k ↦ rw k (record { found = q; run = refl; filed = h; has_items = ground arith })
      ]

  take_item-Filed :
      (q : DepthMultiQueue Q) (c : ℕ → List ℕ) (old x : ℕ) (xs : List ℕ)
      → Filed ops laws q c
      → c q.min_depth ≡ x ∷ xs
      → ((take_item ops q old).0 ≡ some (q.min_depth, x))
        × Filed ops laws (take_item ops q old).1 (update c q.min_depth xs)
  unfolding take_item
  take_item-Filed q c old x xs h e =
      let here : c (q.min_depth + 0) ≡ x ∷ xs = ap c (omega arith) ∙ e in
      let (out, left) =
        laws.extract-Contains (q.queues_by_depth 0) xs x
          (subst (laws.Contains (q.queues_by_depth 0)) here (h.at 0 (omega arith))) in
      (
        rw out refl,
        record {
          ordered = h.ordered;
          at = λ i k. elim (Bool-cases (0 == i)) [
            | inl l ↦
                let there : (q.min_depth == q.min_depth + i) ≡ true = ground arith in
                rw (l, there) left
            | inr l ↦
                let elsewhere : (q.min_depth == q.min_depth + i) ≡ false = ground arith in
                rw (l, elsewhere) (h.at i k)
          ];
          below = λ d k.
              (let other : (q.min_depth == d) ≡ false = ground arith in rw other (h.below d k));
          above = λ d k.
              (let other : (q.min_depth == d) ≡ false = ground (arith, h.ordered) in
                rw other (h.above d k));
          counted = omega (
            arith,
            sum_below-update length (q.max_depth + 1) c q.min_depth xs (omega (arith, h.ordered)),
            ap length e,
            h.counted,
          );
        },
      )

  -- what an extraction gives from a queue with items
  pub record Extracted (q : DepthMultiQueue Q) (c : ℕ → List ℕ) (old : ℕ) : Type 0 where
    pub depth : ℕ
    pub item : ℕ
    pub others : List ℕ
    pub queue : DepthMultiQueue Q
    pub run : extract ops q old ≡ some (some (depth, item), queue)
    pub oldest : c depth ≡ item ∷ others
    pub least : (d : ℕ) → d < depth → c d ≡ []
    pub left : Filed ops laws queue (update c depth others)

  Found-Extracted :
      (q : DepthMultiQueue Q) (c : ℕ → List ℕ) (old : ℕ)
      → 1 ≤ q.num_items_in_queue
      → Found (skip_empty ops (q.max_depth - q.min_depth + 1) q) c
      → Extracted q c old
  unfolding extract
  Found-Extracted q c old some_items f = go (c f.found.min_depth) refl f.has_items
    where
      more : (q.num_items_in_queue == 0) ≡ false
      more = ground arith

      go : (xs : List ℕ) → c f.found.min_depth ≡ xs → 1 ≤ length xs → Extracted q c old
      go [] e least = absurd (omega arith)
      go (x ∷ xs) e least =
          let (out, left) = take_item-Filed f.found c old x xs f.filed e in
          record {
            depth = f.found.min_depth;
            item = x;
            others = xs;
            queue = (take_item ops f.found old).1;
            run = rw (more, f.run) (ap (λ o. some (o, (take_item ops f.found old).1)) out);
            oldest = e;
            least = f.filed.below;
            left = left;
          }

  -- Over queues that keep the order of their items: where the queue has items, extract ends and gives
  -- the oldest of the least depth that has any, and the others are left, each at its depth.
  pub extract-Extracted :
      (q : DepthMultiQueue Q) (c : ℕ → List ℕ) (old : ℕ)
      → Filed ops laws q c
      → 1 ≤ q.num_items_in_queue
      → Extracted q c old
  extract-Extracted q c old h some_items = Found-Extracted q c old some_items (
      skip_empty-Found (q.max_depth - q.min_depth + 1) q.max_depth q c h h.above some_items
        (omega (arith, h.ordered)))
