-- ===== src/Hash/Contents.antt =====
-- What a hash table holds, and when it is well-formed.
use investigate_lack_of_pgo.Prelude.{
  ℕ, zero, suc, ◌+◌, ◌^◌, ◌<◌, ◌≡◌, refl, subst, arith, ◌==◌, Bool-cases, inl, inr, List, [], ◌∷◌,
  ◌++◌, All, update, sum_below, sum_below-update,
}
use investigate_lack_of_pgo.Hash.{Item, Hash, place}

module _ {K : Type 0} where
  unfoldable pub weigh : (Item K → ℕ) → List (Item K) → ℕ
  weigh w [] = 0
  weigh w (x ∷ chain) = w x + weigh w chain

  pub weigh-append :
      (w : Item K → ℕ) (xs ys : List (Item K)) → weigh w (xs ++ ys) ≡ weigh w xs + weigh w ys
  unfolding weigh
  weigh-append w [] ys = omega arith
  weigh-append w (x ∷ xs) ys = omega (arith, weigh-append w xs ys)

  -- The sum of a weight over all items of the first `size` chains. With a weight that is one at an
  -- item and zero elsewhere it counts that item.
  unfoldable pub contents : (Item K → ℕ) → ℕ → (ℕ → List (Item K)) → ℕ
  unfolding weigh sum_below
  contents w size entries = sum_below size (λ i. weigh w (entries i))

  -- Every item stands in the chain of its hash value.
  unfoldable pub IsPlaced : ℕ → ℕ → (ℕ → List (Item K)) → Type 0
  IsPlaced mask size entries =
      (i : ℕ) → i < size → All (λ item. place item.hash_value mask ≡ i) (entries i)

  pub record IsValid (h : Hash K) : Type 0 where
    pub range : h.size < 2 ^ 31
    pub mask : h.size ≡ h.size_bitmask + 1
    pub placed : IsPlaced h.size_bitmask h.size h.entries
    pub count : contents (λ item. 1) h.size h.entries ≡ h.num_elems

  -- A write trades the items of one chain.
  pub contents-update :
      (w : Item K → ℕ) (size : ℕ) (entries : ℕ → List (Item K)) (p : ℕ) (chain : List (Item K))
      → p < size
      → contents w size (update entries p chain) + weigh w (entries p)
        ≡ contents w size entries + weigh w chain
  unfolding contents
  contents-update w size entries p chain h = sum_below-update (weigh w) size entries p chain h

  pub IsPlaced-update :
      (mask size : ℕ) (entries : ℕ → List (Item K)) (p : ℕ) (chain : List (Item K))
      → IsPlaced mask size entries
      → All (λ item. place item.hash_value mask ≡ p) chain
      → IsPlaced mask size (update entries p chain)
  unfolding IsPlaced
  IsPlaced-update mask size entries p chain placed all i h = elim (Bool-cases (p == i)) [
    | inl e ↦
        let same : p ≡ i = ground arith in
        rw e (subst (λ k. All (λ item. place item.hash_value mask ≡ k) chain) same all)
    | inr e ↦ rw e (placed i h)
  ]

  pub All-snoc :
      (P : Item K → Type 0) (xs : List (Item K)) (x : Item K)
      → All P xs
      → P x
      → All P (xs ++ x ∷ [])
  All-snoc P [] x all h = (h, tt)
  All-snoc P (y ∷ xs) x (first, all) h = (first, All-snoc P xs x all h)

  pub contents-empty : (w : Item K → ℕ) (size : ℕ) → contents w size (λ i. []) ≡ 0
  unfolding contents weigh sum_below
  contents-empty w zero = refl
  contents-empty w (suc size) = omega (arith, contents-empty w size)

  pub contents-zero : (w : Item K → ℕ) (entries : ℕ → List (Item K)) → contents w 0 entries ≡ 0
  unfolding contents sum_below
  contents-zero w entries = refl

  pub contents-suc :
      (w : Item K → ℕ) (n : ℕ) (entries : ℕ → List (Item K))
      → contents w (suc n) entries ≡ contents w n entries + weigh w (entries n)
  unfolding contents sum_below
  contents-suc w n entries = refl
