-- ===== src/DepthMultiQueue.antt =====
-- depth_multi_queue.h: a queue for each depth of the database solver's search. The queues are those
-- of offloading_queue.h, through the interface that this code uses. Depths and counters are not
-- negative.
pub mod Insert
pub mod Least
mod Tests
use investigate_lack_of_pgo.Prelude.{
  ℕ, zero, suc, ◌+◌, ◌-◌, Bool, true, false, ◌==◌, ltb, if◌then◌else◌, Option, some, none, update,
}

-- the operations of offloading_queue.h; a queue is made for an id
pub record QueueOps (Q : Type 0) : Type 0 where
  pub new : ℕ → Q
  pub insert : Q → ℕ → Q
  pub extract : Q → Option ℕ × Q
  pub num_items : Q → ℕ

-- fcs_depth_multi_queue_t
pub record DepthMultiQueue (Q : Type 0) : Type 0 where
  pub queues_by_depth : ℕ → Q
  pub min_depth : ℕ
  pub max_depth : ℕ
  pub max_depth_margin : ℕ
  pub next_queue_id : ℕ
  pub num_inserted : ℕ
  pub num_items_in_queue : ℕ
  pub num_extracted : ℕ

-- DEPTH_Q_GROW_BY
abbrev pub grow_by : ℕ
grow_by = 32

module _ {Q : Type 0} (ops : QueueOps Q) where
  -- the body of the loop of fcs_depth_multi_queue__insert: a queue for one more depth, with
  -- fcs_depth_multi_queue__new_queue
  unfoldable pub one_more : DepthMultiQueue Q → DepthMultiQueue Q
  one_more q = record {
    queues_by_depth =
        update q.queues_by_depth (q.max_depth + 1 - q.min_depth) (ops.new q.next_queue_id);
    min_depth = q.min_depth;
    max_depth = q.max_depth + 1;
    max_depth_margin =
        (if q.max_depth + 1 == q.max_depth_margin
          then q.max_depth_margin + grow_by
          else q.max_depth_margin);
    next_queue_id = q.next_queue_id + 1;
    num_inserted = q.num_inserted;
    num_items_in_queue = q.num_items_in_queue;
    num_extracted = q.num_extracted;
  }

  -- the loop, which runs once for each depth that is missing
  unfoldable pub grow : ℕ → DepthMultiQueue Q → DepthMultiQueue Q
  unfolding one_more
  grow zero q = q
  grow (suc rounds) q = grow rounds (one_more q)

  -- the rest of fcs_depth_multi_queue__insert
  unfoldable pub put_item : DepthMultiQueue Q → ℕ → ℕ → DepthMultiQueue Q
  put_item q depth item = record {
    queues_by_depth =
        update q.queues_by_depth (depth - q.min_depth)
          (ops.insert (q.queues_by_depth (depth - q.min_depth)) item);
    min_depth = q.min_depth;
    max_depth = q.max_depth;
    max_depth_margin = q.max_depth_margin;
    next_queue_id = q.next_queue_id;
    num_inserted = q.num_inserted + 1;
    num_items_in_queue = q.num_items_in_queue + 1;
    num_extracted = q.num_extracted;
  }

  -- fcs_depth_multi_queue__insert
  unfoldable pub insert : DepthMultiQueue Q → ℕ → ℕ → DepthMultiQueue Q
  unfolding grow put_item
  insert q depth item = put_item (grow (depth - q.max_depth) q) depth item

  -- fcs_depth_multi_queue__init, over whatever the memory has
  unfoldable pub init : (ℕ → Q) → ℕ → ℕ → DepthMultiQueue Q
  unfolding insert
  init memory first_depth first_item =
      insert
        (record {
          queues_by_depth = update memory 0 (ops.new 0);
          min_depth = first_depth;
          max_depth = first_depth;
          max_depth_margin = first_depth + grow_by;
          next_queue_id = 1;
          num_inserted = 0;
          num_items_in_queue = 0;
          num_extracted = 0;
        })
        first_depth first_item

  -- the array once its first cell has moved behind the `n` others
  abbrev pub rotate : (ℕ → Q) → ℕ → ℕ → Q
  rotate queues n i = if i == n then queues 0 else if ltb i n then queues (i + 1) else queues i

  -- the body of the loop of fcs_depth_multi_queue__extract
  unfoldable pub next_depth : DepthMultiQueue Q → DepthMultiQueue Q
  next_depth q = record {
    queues_by_depth = rotate q.queues_by_depth (q.max_depth - q.min_depth);
    min_depth = q.min_depth + 1;
    max_depth = q.max_depth + 1;
    max_depth_margin = q.max_depth_margin + 1;
    next_queue_id = q.next_queue_id;
    num_inserted = q.num_inserted;
    num_items_in_queue = q.num_items_in_queue;
    num_extracted = q.num_extracted;
  }

  -- the loop, to the least depth with an item
  unfoldable pub skip_empty : ℕ → DepthMultiQueue Q → Option (DepthMultiQueue Q)
  unfolding next_depth
  skip_empty zero q = none
  skip_empty (suc fuel) q =
      let rest = skip_empty fuel (next_depth q) in
      if ops.num_items (q.queues_by_depth 0) == 0 then rest else some q

  -- the end of fcs_depth_multi_queue__extract: the depth, the item and the queue; `old` is what the
  -- place for the item had before
  unfoldable pub take_item : DepthMultiQueue Q → ℕ → Option (ℕ × ℕ) × DepthMultiQueue Q
  take_item q old =
      let (out, rest) = ops.extract (q.queues_by_depth 0) in
      (
        some (q.min_depth, elim out [ some item ↦ item | none ↦ old ]),
        record {
          queues_by_depth = update q.queues_by_depth 0 rest;
          min_depth = q.min_depth;
          max_depth = q.max_depth;
          max_depth_margin = q.max_depth_margin;
          next_queue_id = q.next_queue_id;
          num_inserted = q.num_inserted;
          num_items_in_queue = q.num_items_in_queue - 1;
          num_extracted = q.num_extracted + 1;
        },
      )

  -- fcs_depth_multi_queue__extract; `none` as a whole is for fuel that ran out
  unfoldable pub extract : DepthMultiQueue Q → ℕ → Option (Option (ℕ × ℕ) × DepthMultiQueue Q)
  unfolding skip_empty take_item
  extract q old =
      let taken : Option (Option (ℕ × ℕ) × DepthMultiQueue Q) =
        elim (skip_empty (q.max_depth - q.min_depth + 1) q) [
          | some found ↦ some (take_item found old)
          | none ↦ none
        ] in
      if q.num_items_in_queue == 0 then some (none, q) else taken
