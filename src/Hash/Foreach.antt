-- ===== src/Hash/Foreach.antt =====
-- fc_solve_hash_foreach removes just the items that the callback asks to delete.
use investigate_lack_of_pgo.Prelude.{
  ℕ, zero, suc, ◌+◌, ◌-◌, ◌≤◌, ◌<◌, ◌≡◌, refl, arith, Bool, Bool-cases, inl, inr, if◌then◌else◌,
  List, [], ◌∷◌, All, update, ap,
}
use investigate_lack_of_pgo.Hash.{Item, Hash, place, sweep_chain, sweep_chains, hash_foreach}
use investigate_lack_of_pgo.Hash.Contents.{
  weigh, contents, IsPlaced, IsValid, contents-update, IsPlaced-update, contents-zero, contents-suc,
}

module _ {K : Type 0} (del : K → Bool) where
  -- the weight without the items to delete
  abbrev pub kept_weight : (Item K → ℕ) → Item K → ℕ
  kept_weight w item = if del item.key then 0 else w item

  sweep_chain-weigh :
      (w : Item K → ℕ) (chain : List (Item K)) (num : ℕ)
      → weigh w (sweep_chain del chain num).0 ≡ weigh (kept_weight w) chain
  unfolding sweep_chain weigh
  sweep_chain-weigh w [] num = refl
  sweep_chain-weigh w (x ∷ chain) num = elim (Bool-cases (del x.key)) [
    | inl e ↦ rw e (omega (arith, sweep_chain-weigh w chain (num - 1)))
    | inr e ↦ rw e (omega (arith, sweep_chain-weigh w chain num))
  ]

  sweep_chain-All :
      (P : Item K → Type 0) (chain : List (Item K)) (num : ℕ)
      → All P chain
      → All P (sweep_chain del chain num).0
  unfolding sweep_chain
  sweep_chain-All P [] num all = tt
  sweep_chain-All P (x ∷ chain) num (h, all) = elim (Bool-cases (del x.key)) [
    | inl e ↦ rw e (sweep_chain-All P chain (num - 1) all)
    | inr e ↦ rw e (h, sweep_chain-All P chain num all)
  ]

  sweep_chain-num :
      (chain : List (Item K)) (num : ℕ)
      → weigh (λ item. 1) chain ≤ num
      → (sweep_chain del chain num).1 + weigh (λ item. 1) chain
        ≡ num + weigh (λ item. 1) (sweep_chain del chain num).0
  unfolding sweep_chain weigh
  sweep_chain-num [] num h = refl
  sweep_chain-num (x ∷ chain) num h = elim (Bool-cases (del x.key)) [
    | inl e ↦ rw e (omega (arith, sweep_chain-num chain (num - 1) (omega arith)))
    | inr e ↦ rw e (omega (arith, sweep_chain-num chain num (omega arith)))
  ]

  -- The table after the first `n` chains.
  record Swept (h : Hash K) (n : ℕ) (h' : Hash K) : Type 0 where
    valid : IsValid h'
    size : h'.size ≡ h.size
    untouched : (i : ℕ) → n ≤ i → h'.entries i ≡ h.entries i
    same :
        (w : Item K → ℕ)
        → contents w h'.size h'.entries + contents w n h.entries
          ≡ contents w h.size h.entries + contents (kept_weight w) n h.entries

  sweep_round-Swept :
      (h : Hash K) (n : ℕ) (b : Hash K)
      → n < h.size
      → Swept h n b
      → Swept h (suc n) (record b {
        entries = update b.entries n (sweep_chain del (b.entries n) b.num_elems).0;
        num_elems = (sweep_chain del (b.entries n) b.num_elems).1;
      })
  unfolding IsPlaced weigh
  sweep_round-Swept h n b k s =
      let chain = b.entries n in
      let out = (sweep_chain del chain b.num_elems).0 in
      let inside : n < b.size = omega (arith, s.size) in
      let one : Item K → ℕ = λ item. 1 in
      let few : weigh one chain ≤ b.num_elems =
        omega (arith, contents-update one b.size b.entries n [] inside, s.valid.count) in
      record {
        valid = record {
          range = s.valid.range;
          mask = s.valid.mask;
          placed = IsPlaced-update b.size_bitmask b.size b.entries n out s.valid.placed (
              sweep_chain-All (λ item. place item.hash_value b.size_bitmask ≡ n) chain b.num_elems
                (s.valid.placed n inside));
          count = omega (
            arith,
            contents-update one b.size b.entries n out inside,
            s.valid.count,
            sweep_chain-num chain b.num_elems few,
          );
        };
        size = s.size;
        untouched = λ i q. ground (arith, s.untouched i (omega arith));
        same = λ w. omega (
          arith,
          contents-update w b.size b.entries n out inside,
          sweep_chain-weigh w chain b.num_elems,
          ap (weigh w) (s.untouched n (omega arith)),
          ap (weigh (kept_weight w)) (s.untouched n (omega arith)),
          contents-suc w n h.entries,
          contents-suc (kept_weight w) n h.entries,
          s.same w,
        );
      }

  sweep_chains-Swept :
      (h : Hash K) (n : ℕ) → IsValid h → n ≤ h.size → Swept h n (sweep_chains del h n)
  unfolding sweep_chains
  sweep_chains-Swept h zero v k = record {
    valid = v;
    size = refl;
    untouched = λ i q. refl;
    same = λ w. omega (arith, contents-zero w h.entries, contents-zero (kept_weight w) h.entries);
  }
  sweep_chains-Swept h (suc n) v k =
      sweep_round-Swept h n (sweep_chains del h n) k (sweep_chains-Swept h n v (omega arith))

  pub record Filtered (h h' : Hash K) : Type 0 where
    pub valid : IsValid h'
    pub same :
        (w : Item K → ℕ) → contents w h'.size h'.entries ≡ contents (kept_weight w) h.size h.entries

  -- On a valid table, `fc_solve_hash_foreach` leaves a valid table, which holds exactly the items
  -- whose keys the callback does not ask to delete, each as often as before.
  pub hash_foreach-Filtered : (h : Hash K) → IsValid h → Filtered h (hash_foreach del h)
  unfolding hash_foreach
  hash_foreach-Filtered h v =
      let swept = sweep_chains-Swept h h.size v (omega arith) in
      record { valid = swept.valid; same = λ w. omega (arith, swept.same w) }
