-- ===== src/Hash/Chains.antt =====
-- The place of a hash value, and the search along a chain.
use Prim.Native.Nat.{min, digits, bit_and-bitwise}
use investigate_lack_of_pgo.Prelude.{
  ℕ, zero, suc, ◌/◌, ◌≤◌, ◌≡◌, arith, ◌==◌, ◌&&◌, Bool, true, false, Bool-cases, inl, inr, Option,
  some, none, List, [], ◌∷◌, All,
}
use investigate_lack_of_pgo.Hash.{Item, find_item, place}

digits-min_le : (fuel a b : ℕ) → digits (λ b. 0) min fuel a b ≤ b
digits-min_le zero zero b = omega arith
digits-min_le zero (suc a) b = omega arith
digits-min_le (suc fuel) zero b = omega arith
digits-min_le (suc fuel) (suc a) b = omega (arith, digits-min_le fuel (suc a / 2) (b / 2))

pub place-le : (hash_value mask : ℕ) → place hash_value mask ≤ mask
place-le hash_value mask =
    omega (arith, bit_and-bitwise hash_value mask, digits-min_le hash_value hash_value mask)

module _ {K : Type 0} where
  abbrev pub matches : (K → K → Bool) → K → ℕ → Item K → Bool
  matches same key hash_value item = item.hash_value == hash_value && same item.key key

  -- A key that the search finds is a match in the chain, and where it finds none, there is none.
  pub data InChain (x : Item K) : List (Item K) → Type 0 where
    here : (chain : List (Item K)) → InChain x (x ∷ chain)
    there : (y : Item K) {chain : List (Item K)} → InChain x chain → InChain x (y ∷ chain)

module _ {K : Type 0} (same : K → K → Bool) (key : K) (hv : ℕ) where
  pub data Search (chain : List (Item K)) : Option K → Type 0 where
    found :
        (item : Item K)
        → InChain item chain
        → matches same key hv item ≡ true
        → Search chain (some item.key)
    absent : All (λ item. matches same key hv item ≡ false) chain → Search chain none

  cons-Search :
      (x : Item K) (chain : List (Item K)) {o : Option K}
      → matches same key hv x ≡ false
      → Search chain o
      → Search (x ∷ chain) o
  cons-Search x chain e (found item at m) = found item (there x at) m
  cons-Search x chain e (absent misses) = absent (e, misses)

  pub find_item-Search : (chain : List (Item K)) → Search chain (find_item same key hv chain)
  unfolding find_item
  find_item-Search [] = absent tt
  find_item-Search (x ∷ chain) = elim (Bool-cases (matches same key hv x)) [
    | inl e ↦ rw e (found x (here chain) e)
    | inr e ↦ rw e (cons-Search x chain e (find_item-Search chain))
  ]
