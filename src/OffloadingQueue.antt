-- ===== src/OffloadingQueue.antt =====
-- offloading_queue.h, as it is without FCS_DBM_USE_OFFLOADING_QUEUE: the queue of the database
-- solvers, a linked list in memory whose removed cells are kept for reuse. A pointer to a cell is a
-- number, the heap a function of it, and NULL is none; the allocator hands out the numbers in order.
pub mod Chains
pub mod Insert
pub mod Fifo
mod Tests
use investigate_lack_of_pgo.Prelude.{ℕ, suc, ◌+◌, ◌-◌, Option, some, none, List, [], ◌∷◌, update}

-- fcs_Q_item_wrapper_t; the item is a pointer too
pub record Wrapper : Type 0 where
  pub datum : ℕ
  pub next : Option ℕ

-- fcs_offloading_queue_t; `next_ptr` stands for its allocator
pub record OffloadingQueue : Type 0 where
  pub heap : ℕ → Wrapper
  pub next_ptr : ℕ
  pub queue_head : Option ℕ
  pub queue_tail : Option ℕ
  pub queue_recycle_bin : Option ℕ
  pub num_inserted : ℕ
  pub num_items_in_queue : ℕ
  pub num_extracted : ℕ

-- fcs_offloading_queue__init, over whatever the memory has
unfoldable pub init : (ℕ → Wrapper) → OffloadingQueue
init memory = record {
  heap = memory;
  next_ptr = 0;
  queue_head = none;
  queue_tail = none;
  queue_recycle_bin = none;
  num_inserted = 0;
  num_items_in_queue = 0;
  num_extracted = 0;
}

-- fcs_offloading_queue__extract: the item, where there is one, and the queue
unfoldable pub extract : OffloadingQueue → Option ℕ × OffloadingQueue
extract q = elim q.queue_head [
  | none ↦ (none, q)
  | some item ↦
      let next = (q.heap item).next in
      (
        some (q.heap item).datum,
        record {
          heap =
              update q.heap item
                (record { datum = (q.heap item).datum; next = q.queue_recycle_bin });
          next_ptr = q.next_ptr;
          queue_head = next;
          queue_tail = elim next [ none ↦ none | some n ↦ q.queue_tail ];
          queue_recycle_bin = some item;
          num_inserted = q.num_inserted;
          num_items_in_queue = q.num_items_in_queue - 1;
          num_extracted = q.num_extracted + 1;
        },
      )
]

-- the cell for a new item: of the recycle bin, or else of the allocator
unfoldable pub new_item : OffloadingQueue → ℕ × OffloadingQueue
new_item q = elim q.queue_recycle_bin [
  | some item ↦ (
    item,
    record {
      heap = q.heap;
      next_ptr = q.next_ptr;
      queue_head = q.queue_head;
      queue_tail = q.queue_tail;
      queue_recycle_bin = (q.heap item).next;
      num_inserted = q.num_inserted;
      num_items_in_queue = q.num_items_in_queue;
      num_extracted = q.num_extracted;
    },
  )
  | none ↦ (
    q.next_ptr,
    record {
      heap = q.heap;
      next_ptr = q.next_ptr + 1;
      queue_head = q.queue_head;
      queue_tail = q.queue_tail;
      queue_recycle_bin = q.queue_recycle_bin;
      num_inserted = q.num_inserted;
      num_items_in_queue = q.num_items_in_queue;
      num_extracted = q.num_extracted;
    },
  )
]

-- `tail->next = item`
abbrev pub link : (ℕ → Wrapper) → ℕ → ℕ → ℕ → Wrapper
link heap tail item = update heap tail (record { datum = (heap tail).datum; next = some item })

-- the new cell at the end of the list
unfoldable pub append_item : OffloadingQueue → ℕ → ℕ → OffloadingQueue
append_item q item datum =
    let heap = update q.heap item (record { datum = datum; next = none }) in
    record {
      heap = elim q.queue_tail [ some tail ↦ link heap tail item | none ↦ heap ];
      next_ptr = q.next_ptr;
      queue_head = elim q.queue_tail [ some tail ↦ q.queue_head | none ↦ some item ];
      queue_tail = some item;
      queue_recycle_bin = q.queue_recycle_bin;
      num_inserted = q.num_inserted + 1;
      num_items_in_queue = q.num_items_in_queue + 1;
      num_extracted = q.num_extracted;
    }

-- fcs_offloading_queue__insert
unfoldable pub insert : OffloadingQueue → ℕ → OffloadingQueue
unfolding new_item append_item
insert q datum = let (item, taken) = new_item q in append_item taken item datum
