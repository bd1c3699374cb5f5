-- ===== src/Hash/Insert.antt =====
-- fc_solve_hash_insert against the table as a collection of items.
use investigate_lack_of_pgo.Prelude.{
  ℕ, ◌+◌, ◌<◌, ◌≡◌, ◌≢◌, refl, sym, ap, subst, ◌∙◌, arith, true, false, Bool, Bool-cases, inl, inr,
  ◌==◌, if◌then◌else◌, List, [], ◌∷◌, ◌++◌, All, update, Option, some, none,
}
use investigate_lack_of_pgo.Prelude.Int.{ltb_ℤ, pos}
use investigate_lack_of_pgo.Hash.{
  Item, Hash, place, find_item, append_item, rehash, hash_insert, hash_init,
}
use investigate_lack_of_pgo.Hash.Chains.{
  place-le, matches, InChain, Search, found, absent, find_item-Search,
}
use investigate_lack_of_pgo.Hash.Contents.{
  weigh, weigh-append, contents, IsPlaced, IsValid, contents-update, IsPlaced-update, All-snoc,
  contents-empty,
}
use investigate_lack_of_pgo.Hash.Rehash.{rehash-Rehashed}

module _ {K : Type 0} where
  -- the bound of the place, and the chain there
  place-lt : (h : Hash K) (hv : ℕ) → IsValid h → place hv h.size_bitmask < h.size
  place-lt h hv v = omega (arith, v.mask, place-le hv h.size_bitmask)

  pub append_item-Rehashed :
      (h : Hash K) (key : K) (hv : ℕ)
      → IsValid h
      → IsValid (append_item h key hv)
        × ((w : Item K → ℕ)
            → contents w (append_item h key hv).size (append_item h key hv).entries
              ≡ contents w h.size h.entries + w (record { key = key; hash_value = hv }))
  unfolding append_item IsPlaced weigh
  append_item-Rehashed h key hv v =
      let p = place hv h.size_bitmask in
      let item : Item K = record { key = key; hash_value = hv } in
      let chain = h.entries p ++ item ∷ [] in
      let bound = place-lt h hv v in
      let added : (w : Item K → ℕ)
          → contents w h.size (update h.entries p chain) ≡ contents w h.size h.entries + w item =
        λ w. omega (
          arith,
          contents-update w h.size h.entries p chain bound,
          weigh-append w (h.entries p) (item ∷ []),
        ) in
      (
        record {
          range = v.range;
          mask = v.mask;
          placed = IsPlaced-update h.size_bitmask h.size h.entries p chain v.placed (
              All-snoc (λ x. place x.hash_value h.size_bitmask ≡ p) (h.entries p) item
                (v.placed p bound) refl);
          count = omega (arith, added (λ x. 1), v.count);
        },
        added,
      )

  -- What an insertion into `h` gives.
  pub data Inserted (same : K → K → Bool) (h : Hash K) (key : K) (hv : ℕ)
      : Option K × Hash K → Type 0 where
    existing :
        (item : Item K) (i : ℕ)
        → i < h.size
        → InChain item (h.entries i)
        → matches same key hv item ≡ true
        → Inserted same h key hv (some item.key, h)
    inserted :
        (h' : Hash K)
        → ((i : ℕ) → i < h.size → All (λ item. matches same key hv item ≡ false) (h.entries i))
        → IsValid h'
        → ((w : Item K → ℕ)
            → contents w h'.size h'.entries
              ≡ contents w h.size h.entries + w (record { key = key; hash_value = hv }))
        → Inserted same h key hv (none, h')

  -- An item whose chain is another one has another hash value.
  elsewhere :
      (same : K → K → Bool) (key : K) (hv mask i : ℕ) (chain : List (Item K))
      → place hv mask ≢ i
      → All (λ item. place item.hash_value mask ≡ i) chain
      → All (λ item. matches same key hv item ≡ false) chain
  elsewhere same key hv mask i [] apart all = tt
  elsewhere same key hv mask i (x ∷ chain) apart (at, all) = (
    elim (Bool-cases (x.hash_value == hv)) [
      | inl e ↦
          let equal : x.hash_value ≡ hv = ground arith in
          absurd (apart (ap (λ k. place k mask) (sym equal) ∙ at))
      | inr e ↦ rw e refl
    ],
    elsewhere same key hv mask i chain apart all,
  )

  absent_everywhere :
      (same : K → K → Bool) (h : Hash K) (key : K) (hv : ℕ)
      → IsValid h
      → All (λ item. matches same key hv item ≡ false) (h.entries (place hv h.size_bitmask))
      → (i : ℕ) → i < h.size
      → All (λ item. matches same key hv item ≡ false) (h.entries i)
  unfolding IsPlaced
  absent_everywhere same h key hv v misses i k = elim (Bool-cases (place hv h.size_bitmask == i)) [
    | inl e ↦
        subst (λ p. All (λ item. matches same key hv item ≡ false) (h.entries p)) (ground arith)
          misses
    | inr e ↦
        elsewhere same key hv h.size_bitmask i (h.entries i) (λ q. ground arith) (v.placed i k)
  ]

  insert_new-Inserted :
      (same : K → K → Bool) (h : Hash K) (key : K) (hv : ℕ)
      → IsValid h
      → All (λ item. matches same key hv item ≡ false) (h.entries (place hv h.size_bitmask))
      → Inserted same h key hv (none, append_item h key hv)
        × Inserted same h key hv (none, rehash (append_item h key hv))
  insert_new-Inserted same h key hv v misses =
      let none_there = absent_everywhere same h key hv v misses in
      let (valid, added) = append_item-Rehashed h key hv v in
      let grown = rehash-Rehashed (append_item h key hv) valid in
      (
        inserted (append_item h key hv) none_there valid added,
        inserted (rehash (append_item h key hv)) none_there grown.valid
            (λ w. grown.same w ∙ added w),
      )

  searched-Inserted :
      (same : K → K → Bool) (h : Hash K) (key : K) (hv : ℕ) (o : Option K)
      → IsValid h
      → Search same key hv (h.entries (place hv h.size_bitmask)) o
      → Inserted same h key hv (elim o [
        | some k ↦ (some k, h)
        | none ↦
            if ltb_ℤ h.max_num_elems_before_resize (pos (append_item h key hv).num_elems)
            then (none, rehash (append_item h key hv))
            else (none, append_item h key hv)
      ])
  searched-Inserted same h key hv o v (found item at m) =
      existing item (place hv h.size_bitmask) (place-lt h hv v) at m
  searched-Inserted same h key hv o v (absent misses) =
      let (kept, grown) = insert_new-Inserted same h key hv v misses in
      elim (Bool-cases
        (ltb_ℤ h.max_num_elems_before_resize (pos (append_item h key hv).num_elems))) [
          | inl e ↦ rw e grown
          | inr e ↦ rw e kept
        ]

  -- In a valid table, `fc_solve_hash_insert` either gives the key of an item of the table with the same
  -- hash value and an equal key, and leaves the table as it is; or no item of the table is such,
  -- it gives none, and the table after, rehashed or not, is valid and holds the items from before
  -- and the new one, each as often.
  pub hash_insert-Inserted :
      (same : K → K → Bool) (h : Hash K) (key : K) (hv : ℕ)
      → IsValid h
      → Inserted same h key hv (hash_insert same h key hv)
  unfolding hash_insert
  hash_insert-Inserted same h key hv v =
      searched-Inserted same h key hv (find_item same key hv (h.entries (place hv h.size_bitmask)))
        v (find_item-Search same key hv (h.entries (place hv h.size_bitmask)))

  pub hash_init-IsValid : IsValid {K = K} hash_init
  unfolding hash_init IsPlaced
  hash_init-IsValid = record {
    range = omega arith;
    mask = omega arith;
    placed = λ i h. tt;
    count = contents-empty (λ item. 1) 2048;
  }
