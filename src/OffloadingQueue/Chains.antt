-- ===== src/OffloadingQueue/Chains.antt =====
-- Linked lists in the heap: which cells a list has, and what a write leaves of it.
use investigate_lack_of_pgo.Prelude.{
  ℕ, ◌+◌, ◌≤◌, ◌≡◌, refl, sym, arith, ◌==◌, if◌then◌else◌, true, false, Bool-cases, inl, inr,
  ==_iff, Option, some, none, List, [], ◌∷◌, ◌++◌, update,
}
use investigate_lack_of_pgo.OffloadingQueue.{Wrapper, link}

-- how often the cell is in the list
abbrev pub uses : ℕ → List ℕ → ℕ
uses n [] = 0
uses n (m ∷ ms) = (if n == m then 1 else 0) + uses n ms

-- the cells that the list from the pointer has, one after the other
abbrev pub Chain : (ℕ → Wrapper) → Option ℕ → List ℕ → Type 0
Chain heap p [] = p ≡ none
Chain heap p (n ∷ ns) = (p ≡ some n) × Chain heap (heap n).next ns

abbrev pub items : (ℕ → Wrapper) → List ℕ → List ℕ
items heap [] = []
items heap (n ∷ ns) = (heap n).datum ∷ items heap ns

abbrev pub last : List ℕ → Option ℕ
last [] = none
last (n ∷ []) = some n
last (n ∷ m ∷ ms) = last (m ∷ ms)

-- A write to a cell that the list does not use leaves it.
module _ (heap : ℕ → Wrapper) (at : ℕ) (w : Wrapper) where
  pub update-Chain :
      (p : Option ℕ) (ns : List ℕ)
      → uses at ns ≡ 0
      → Chain heap p ns
      → Chain (update heap at w) p ns
  update-Chain p [] out c = c
  update-Chain p (n ∷ ns) out (e, c) = elim (Bool-cases (at == n)) [
    | inl k ↦ absurd (ground arith)
    | inr k ↦ rw k (e, update-Chain (heap n).next ns (ground arith) c)
  ]

  pub items-update : (ns : List ℕ) → uses at ns ≡ 0 → items (update heap at w) ns ≡ items heap ns
  items-update [] out = refl
  items-update (n ∷ ns) out = elim (Bool-cases (at == n)) [
    | inl k ↦ absurd (ground arith)
    | inr k ↦ rw (k, items-update ns (ground arith))
  ]

pub some-injective : {m n : ℕ} → some m ≡ some n → m ≡ n
some-injective e = cc e

pub uses-last : (t : ℕ) (ns : List ℕ) → last ns ≡ some t → 1 ≤ uses t ns
uses-last t [] e = absurd (cc e)
uses-last t (n ∷ []) e = ground (arith, some-injective e)
uses-last t (n ∷ m ∷ ms) e = omega (arith, uses-last t (m ∷ ms) e)

uses-other :
    (n m t : ℕ) (ns : List ℕ) → uses t (n ∷ m ∷ ns) ≤ 1 → last (m ∷ ns) ≡ some t → (t == n) ≡ false
uses-other n m t ns once e = elim (Bool-cases (t == n)) [
  | inl k ↦ let least = uses-last t (m ∷ ns) e in absurd (ground arith)
  | inr k ↦ k
]

-- Linking a cell behind the last one appends it.
module _ (heap : ℕ → Wrapper) (new t : ℕ) (end : (heap new).next ≡ none) where
  pub link-Chain :
      (p : Option ℕ) (ns : List ℕ)
      → uses new ns ≡ 0
      → uses t ns ≤ 1
      → last ns ≡ some t
      → Chain heap p ns
      → Chain (link heap t new) p (ns ++ new ∷ [])
  link-Chain p [] out once e c = absurd (cc e)
  link-Chain p (n ∷ []) out once e (start, c) =
      let same : (t == n) ≡ true = (==_iff t n).1 (sym (some-injective e)) in
      let other : (t == new) ≡ false = ground (arith, some-injective e) in
      rw (same, other) (start, (refl, end))
  link-Chain p (n ∷ m ∷ ns) out once e (start, c) =
      rw (uses-other n m t ns once e)
        (start, link-Chain (heap n).next (m ∷ ns) (omega arith) (omega arith) e c)

pub link-datum : (heap : ℕ → Wrapper) (new t n : ℕ) → (link heap t new n).datum ≡ (heap n).datum
link-datum heap new t n = elim (Bool-cases (t == n)) [
  | inl k ↦ rw (k, (==_iff t n).0 k)
  | inr k ↦ rw k
]

pub items-link :
    (heap : ℕ → Wrapper) (new t : ℕ) (ns : List ℕ) → items (link heap t new) ns ≡ items heap ns
items-link heap new t [] = refl
items-link heap new t (n ∷ ns) = rw (link-datum heap new t n, items-link heap new t ns)

pub items-append :
    (heap : ℕ → Wrapper) (ns ms : List ℕ) → items heap (ns ++ ms) ≡ items heap ns ++ items heap ms
items-append heap [] ms = refl
items-append heap (n ∷ ns) ms = rw (items-append heap ns ms)

pub uses-append : (n : ℕ) (ns ms : List ℕ) → uses n (ns ++ ms) ≡ uses n ns + uses n ms
uses-append n [] ms = omega arith
uses-append n (m ∷ ns) ms = omega (arith, uses-append n ns ms)

pub last-append : (ns : List ℕ) (n : ℕ) → last (ns ++ n ∷ []) ≡ some n
last-append [] n = refl
last-append (m ∷ []) n = refl
last-append (m ∷ m' ∷ ns) n = last-append (m' ∷ ns) n
