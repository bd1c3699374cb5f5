-- ===== src/Hash.antt =====
-- fcs_hash.c and fcs_hash.h: the hash table of the states and of the columns. A chain is the list of
-- its items, the array of chains a function; a hash value is the bits of an `int`. Where an item's
-- memory comes from, the list of vacant items or the allocator, is left out.
pub mod Chains
pub mod Contents
pub mod Rehash
pub mod Insert
pub mod Foreach
mod Tests
use investigate_lack_of_pgo.Prelude.{
  ℕ, zero, suc, ◌+◌, ◌-◌, ◌*◌, ◌%◌, ◌^◌, ◌≤◌, bit_and, ltb, leb, ◌==◌, ◌&&◌, ◌||◌, Bool,
  if◌then◌else◌, Option, some, none, List, [], ◌∷◌, ◌++◌, update,
}
use investigate_lack_of_pgo.Prelude.Int.{ℤ, pos, negsuc, ltb_ℤ}

-- fc_solve_hash_symlink_item_t
pub record Item (K : Type 0) : Type 0 where
  pub key : K
  pub hash_value : ℕ

-- fc_solve_hash_t
pub record Hash (K : Type 0) : Type 0 where
  pub entries : ℕ → List (Item K)
  pub size : ℕ
  pub size_bitmask : ℕ
  pub num_elems : ℕ
  pub max_num_elems_before_resize : ℤ

-- the value of an `int` with the given bits
unfoldable pub to_int : ℕ → ℤ
to_int bits = if ltb bits (2 ^ 31) then pos bits else negsuc (2 ^ 32 - bits - 1)

-- FCS_INT_LIMIT_MAX, INTPTR_MAX
abbrev pub int_limit_max : ℤ
int_limit_max = pos (2 ^ 63 - 1)

abbrev pub place : ℕ → ℕ → ℕ
place hash_value size_bitmask = bit_and hash_value size_bitmask

module _ {K : Type 0} where
  -- fc_solve_hash_init
  unfoldable pub hash_init : Hash K
  hash_init = record {
    entries = λ i. [];
    size = 2048;
    size_bitmask = 2048 - 1;
    num_elems = 0;
    max_num_elems_before_resize = pos (2048 * 2);
  }

  -- the inner loop of fc_solve_hash_rehash, over the items of a chain
  unfoldable pub move_chain : ℕ → (ℕ → List (Item K)) → List (Item K) → ℕ → List (Item K)
  move_chain mask new_entries [] = new_entries
  move_chain mask new_entries (item ∷ chain) =
      let p = place item.hash_value mask in
      move_chain mask (update new_entries p (item ∷ new_entries p)) chain

  -- its outer loop, over the first `n` chains
  unfoldable pub move_chains : ℕ → (ℕ → List (Item K)) → ℕ → ℕ → List (Item K)
  unfolding move_chain
  move_chains mask entries zero = λ i. []
  move_chains mask entries (suc n) = move_chain mask (move_chains mask entries n) (entries n)

  unfoldable pub rehash : Hash K → Hash K
  unfolding move_chains to_int
  rehash h =
      let new_size = h.size * 2 % 2 ^ 32 in
      let new_size_bitmask = new_size - 1 in
      if ltb_ℤ (to_int new_size) (to_int h.size)
      then record h { max_num_elems_before_resize = int_limit_max }
      else record {
        entries = move_chains new_size_bitmask h.entries h.size;
        size = new_size;
        size_bitmask = new_size_bitmask;
        num_elems = h.num_elems;
        max_num_elems_before_resize = to_int (new_size * 2 % 2 ^ 32);
      }

  -- The loop of fc_solve_hash_insert along a chain: the key that is found. `same` is the
  -- comparison of keys, the negation of what MY_HASH_COMPARE_PROTO() gives.
  unfoldable pub find_item : (K → K → Bool) → K → ℕ → List (Item K) → Option K
  find_item same key hash_value [] = none
  find_item same key hash_value (item ∷ chain) =
      let rest = find_item same key hash_value chain in
      if item.hash_value == hash_value && same item.key key then some item.key else rest

  -- the table with the new item at the end of its chain, before the check of the size
  unfoldable pub append_item : Hash K → K → ℕ → Hash K
  append_item h key hash_value =
      let p = place hash_value h.size_bitmask in
      record h {
        entries =
            update h.entries p (h.entries p ++ record { key = key; hash_value = hash_value } ∷ []);
        num_elems = h.num_elems + 1;
      }

  -- fc_solve_hash_insert: `*existing_key`, where it is not NULL, and the table after. The returned
  -- truth value is whether there is such a key.
  unfoldable pub hash_insert : (K → K → Bool) → Hash K → K → ℕ → Option K × Hash K
  unfolding find_item append_item rehash
  hash_insert same h key hash_value =
      elim (find_item same key hash_value (h.entries (place hash_value h.size_bitmask))) [
        | some existing ↦ (some existing, h)
        | none ↦
            let h' = append_item h key hash_value in
            let grown = rehash h' in
            if ltb_ℤ h.max_num_elems_before_resize (pos h'.num_elems)
            then (none, grown)
            else (none, h')
      ]

  -- The inner loop of fc_solve_hash_foreach: what is left of a chain, and the number of elements.
  -- What the callback changes in its context is left out.
  unfoldable pub sweep_chain : (K → Bool) → List (Item K) → ℕ → List (Item K) × ℕ
  sweep_chain should_delete [] num_elems = ([], num_elems)
  sweep_chain should_delete (item ∷ chain) num_elems =
      let deletes = should_delete item.key in
      let (rest, num) =
        sweep_chain should_delete chain (if deletes then num_elems - 1 else num_elems) in
      (if deletes then rest else item ∷ rest, num)

  -- its outer loop, over the first `n` chains
  unfoldable pub sweep_chains : (K → Bool) → Hash K → ℕ → Hash K
  unfolding sweep_chain
  sweep_chains should_delete h zero = h
  sweep_chains should_delete h (suc n) =
      let before = sweep_chains should_delete h n in
      let (chain, num) = sweep_chain should_delete (before.entries n) before.num_elems in
      record before { entries = update before.entries n chain; num_elems = num }

  unfoldable pub hash_foreach : (K → Bool) → Hash K → Hash K
  unfolding sweep_chains
  hash_foreach should_delete h = sweep_chains should_delete h h.size
