-- ===== src/Hash/Rehash.antt =====
-- fc_solve_hash_rehash keeps the items and puts each into its new chain.
use investigate_lack_of_pgo.Prelude.{
  ℕ, zero, suc, ◌+◌, ◌-◌, ◌*◌, ◌%◌, ◌^◌, ◌≤◌, ◌<◌, ◌≡◌, refl, ◌∙◌, arith, false, Bool-cases, inl,
  inr, List, [], ◌∷◌, update,
}
use investigate_lack_of_pgo.Prelude.Int.{ltb_ℤ}
use investigate_lack_of_pgo.Hash.{Item, Hash, place, to_int, move_chain, move_chains, rehash}
use investigate_lack_of_pgo.Hash.Chains.{place-le}
use investigate_lack_of_pgo.Hash.Contents.{
  weigh, contents, IsPlaced, IsValid, contents-update, IsPlaced-update, contents-empty,
  contents-zero, contents-suc,
}

module _ {K : Type 0} (mask : ℕ) where
  move_chain-IsPlaced :
      (chain : List (Item K)) (size : ℕ) (entries : ℕ → List (Item K))
      → size ≡ mask + 1
      → IsPlaced mask size entries
      → IsPlaced mask size (move_chain mask entries chain)
  unfolding move_chain IsPlaced
  move_chain-IsPlaced [] size entries e placed = placed
  move_chain-IsPlaced (x ∷ chain) size entries e placed =
      let p = place x.hash_value mask in
      move_chain-IsPlaced chain size (update entries p (x ∷ entries p)) e (
        IsPlaced-update mask size entries p (x ∷ entries p) placed
          (refl, placed p (omega (arith, e, place-le x.hash_value mask))))

  move_chain-contents :
      (w : Item K → ℕ) (chain : List (Item K)) (size : ℕ) (entries : ℕ → List (Item K))
      → size ≡ mask + 1
      → contents w size (move_chain mask entries chain) ≡ contents w size entries + weigh w chain
  unfolding move_chain weigh
  move_chain-contents w [] size entries e = omega arith
  move_chain-contents w (x ∷ chain) size entries e =
      let p = place x.hash_value mask in
      omega (
        arith,
        move_chain-contents w chain size (update entries p (x ∷ entries p)) e,
        contents-update w size entries p (x ∷ entries p)
            (omega (arith, e, place-le x.hash_value mask)),
      )

  pub move_chains-IsPlaced :
      (n size : ℕ) (entries : ℕ → List (Item K))
      → size ≡ mask + 1
      → IsPlaced mask size (move_chains mask entries n)
  unfolding move_chains IsPlaced
  move_chains-IsPlaced zero size entries e = λ i h. tt
  move_chains-IsPlaced (suc n) size entries e =
      move_chain-IsPlaced (entries n) size (move_chains mask entries n) e
        (move_chains-IsPlaced n size entries e)

  pub move_chains-contents :
      (w : Item K → ℕ) (n size : ℕ) (entries : ℕ → List (Item K))
      → size ≡ mask + 1
      → contents w size (move_chains mask entries n) ≡ contents w n entries
  unfolding move_chains
  move_chains-contents w zero size entries e =
      omega (arith, contents-empty w size, contents-zero w entries)
  move_chains-contents w (suc n) size entries e = omega (
    arith,
    move_chain-contents w (entries n) size (move_chains mask entries n) e,
    move_chains-contents w n size entries e,
    contents-suc w n entries,
  )

-- What a rehash keeps, whether it grows the table or finds it too large to grow.
pub record Rehashed {K : Type 0} (h h' : Hash K) : Type 0 where
  pub valid : IsValid h'
  pub same : (w : Item K → ℕ) → contents w h'.size h'.entries ≡ contents w h.size h.entries
  pub num : h'.num_elems ≡ h.num_elems

-- a size that can be doubled
grows :
    (size : ℕ)
    → 1 ≤ size
    → size < 2 ^ 31
    → ltb_ℤ (to_int (size * 2 % 2 ^ 32)) (to_int size) ≡ false
    → (1 ≤ size * 2 % 2 ^ 32) × (size * 2 % 2 ^ 32 < 2 ^ 31)
unfolding to_int
grows size p q e = ground (arith, e)

module _ {K : Type 0} where
  pub rehash-Rehashed : (h : Hash K) → IsValid h → Rehashed h (rehash h)
  unfolding rehash
  rehash-Rehashed h v =
      let new_size = h.size * 2 % 2 ^ 32 in
      elim (Bool-cases (ltb_ℤ (to_int new_size) (to_int h.size))) [
        | inl overflow ↦ rw overflow (record {
          valid = record { range = v.range; mask = v.mask; placed = v.placed; count = v.count };
          same = λ w. refl;
          num = refl;
        })
        | inr fits ↦
            let (room, range) = grows h.size (omega (arith, v.mask)) v.range fits in
            let mask : new_size ≡ new_size - 1 + 1 = omega (arith, room) in
            rw fits (record {
              valid = record {
                range = range;
                mask = mask;
                placed = move_chains-IsPlaced (new_size - 1) h.size new_size h.entries mask;
                count =
                    move_chains-contents (new_size - 1) (λ item. 1) h.size new_size h.entries mask
                    ∙ v.count;
              };
              same = λ w. move_chains-contents (new_size - 1) w h.size new_size h.entries mask;
              num = refl;
            })
      ]
