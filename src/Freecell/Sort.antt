-- ===== src/Freecell/Sort.antt =====
-- sort_derived_states, on the states that the test added to the list.
use investigate_lack_of_pgo.Prelude.{
  ℕ, ◌+◌, ◌≤◌, ◌≡◌, ◌∙◌, arith, Bool-cases, inl, inr, ltb, if◌then◌else◌, Option, some, none, List,
  [], ◌∷◌, All,
}
use investigate_lack_of_pgo.Freecell.{Derived}
use investigate_lack_of_pgo.Freecell.Loops.{Yields}

-- The inner loop: the item sinks below those of greater contexts. The list is that of the items
-- before it, the last one first.
unfoldable pub sink_derived : Derived → List Derived → List Derived
sink_derived item [] = item ∷ []
sink_derived item (before ∷ items) =
    let rest = sink_derived item items in
    if ltb item.1 before.1 then before ∷ rest else item ∷ before ∷ items

-- the list from its last item to its first
unfoldable pub turn : List Derived → List Derived → List Derived
turn done [] = done
turn done (item ∷ items) = turn (item ∷ done) items

-- the outer loop
unfoldable pub sort_from : List Derived → List Derived → List Derived
unfolding sink_derived
sort_from sorted [] = sorted
sort_from sorted (item ∷ items) = sort_from (sink_derived item sorted) items

unfoldable pub sort_derived_states : List Derived → List Derived
unfolding sort_from turn
sort_derived_states items = turn [] (sort_from [] items)

-- the call at the end of a test
unfoldable pub sorted_derived : Option (List Derived) → Option (List Derived)
unfolding sort_derived_states
sorted_derived (some items) = some (sort_derived_states items)
sorted_derived none = none

module _ (P : Derived → Type 0) where
  sink_derived-All :
      (item : Derived) (items : List Derived)
      → P item
      → All P items
      → All P (sink_derived item items)
  unfolding sink_derived
  sink_derived-All item [] h k = (h, tt)
  sink_derived-All item (before ∷ items) h (k, ks) = elim (Bool-cases (ltb item.1 before.1)) [
    | inl e ↦ rw e (k, sink_derived-All item items h ks)
    | inr e ↦ rw e (h, (k, ks))
  ]

  sort_from-All :
      (sorted items : List Derived) → All P sorted → All P items → All P (sort_from sorted items)
  unfolding sort_from
  sort_from-All sorted [] h k = h
  sort_from-All sorted (item ∷ items) h (k, ks) =
      sort_from-All (sink_derived item sorted) items (sink_derived-All item sorted k h) ks

  turn-All : (done items : List Derived) → All P done → All P items → All P (turn done items)
  unfolding turn
  turn-All done [] h k = h
  turn-All done (item ∷ items) h (k, ks) = turn-All (item ∷ done) items (k, h) ks

  pub sorted_derived-Yields :
      (result : Option (List Derived)) → Yields P result → Yields P (sorted_derived result)
  unfolding sorted_derived sort_derived_states
  sorted_derived-Yields (some items) h =
      turn-All [] (sort_from [] items) tt (sort_from-All [] items tt h)
  sorted_derived-Yields none h = h

-- The contexts do not descend along the list.
abbrev pub AscendsFrom : ℕ → List Derived → Type 0
AscendsFrom low [] = Unit {0}
AscendsFrom low (item ∷ items) = (low ≤ item.1) × AscendsFrom item.1 items

-- From the last item to the first they do not ascend, and are at most `high`.
abbrev DescendsFrom : ℕ → List Derived → Type 0
DescendsFrom high [] = Unit {0}
DescendsFrom high (item ∷ items) = (item.1 ≤ high) × DescendsFrom item.1 items

abbrev Descends : List Derived → Type 0
Descends [] = Unit {0}
Descends (item ∷ items) = DescendsFrom item.1 items

sink_derived-DescendsFrom :
    (high : ℕ) (item : Derived) (items : List Derived)
    → item.1 ≤ high
    → DescendsFrom high items
    → DescendsFrom high (sink_derived item items)
unfolding sink_derived
sink_derived-DescendsFrom high item [] h k = (h, tt)
sink_derived-DescendsFrom high item (before ∷ items) h (k, ks) =
    elim (Bool-cases (ltb item.1 before.1)) [
      | inl e ↦ rw e (k, sink_derived-DescendsFrom before.1 item items (ground (arith, e)) ks)
      | inr e ↦ rw e (h, (ground (arith, e), ks))
    ]

sink_derived-Descends :
    (item : Derived) (items : List Derived) → Descends items → Descends (sink_derived item items)
unfolding sink_derived
sink_derived-Descends item [] h = tt
sink_derived-Descends item (before ∷ items) h = elim (Bool-cases (ltb item.1 before.1)) [
  | inl e ↦ rw e (sink_derived-DescendsFrom before.1 item items (ground (arith, e)) h)
  | inr e ↦ rw e (ground (arith, e), h)
]

sort_from-Descends :
    (sorted items : List Derived) → Descends sorted → Descends (sort_from sorted items)
unfolding sort_from
sort_from-Descends sorted [] h = h
sort_from-Descends sorted (item ∷ items) h =
    sort_from-Descends (sink_derived item sorted) items (sink_derived-Descends item sorted h)

turn-AscendsFrom :
    (first : Derived) (done items : List Derived)
    → DescendsFrom first.1 items
    → AscendsFrom first.1 done
    → AscendsFrom 0 (turn (first ∷ done) items)
unfolding turn
turn-AscendsFrom first done [] h k = (omega arith, k)
turn-AscendsFrom first done (item ∷ items) (h, hs) k =
    turn-AscendsFrom item (first ∷ done) items hs (h, k)

descended-AscendsFrom : (items : List Derived) → Descends items → AscendsFrom 0 (turn [] items)
unfolding turn
descended-AscendsFrom [] h = tt
descended-AscendsFrom (item ∷ items) h = turn-AscendsFrom item [] items h tt

-- The sum of a weight over the items.
abbrev pub total : (Derived → ℕ) → List Derived → ℕ
total w [] = 0
total w (item ∷ items) = w item + total w items

module _ (w : Derived → ℕ) where
  sink_derived-total :
      (item : Derived) (items : List Derived)
      → total w (sink_derived item items) ≡ w item + total w items
  unfolding sink_derived
  sink_derived-total item [] = omega arith
  sink_derived-total item (before ∷ items) = ground (arith, sink_derived-total item items)

  sort_from-total :
      (sorted items : List Derived)
      → total w (sort_from sorted items) ≡ total w sorted + total w items
  unfolding sort_from
  sort_from-total sorted [] = omega arith
  sort_from-total sorted (item ∷ items) =
      omega
        (arith, sort_from-total (sink_derived item sorted) items, sink_derived-total item sorted)

  turn-total :
      (done items : List Derived) → total w (turn done items) ≡ total w done + total w items
  unfolding turn
  turn-total done [] = omega arith
  turn-total done (item ∷ items) = omega (arith, turn-total (item ∷ done) items)

-- `sort_derived_states` puts the states in the order of their contexts, and has each of them as often
-- as before: whatever weight the states have, the sum is the same.
pub sort_derived_states-sorted :
    (items : List Derived)
    → AscendsFrom 0 (sort_derived_states items)
      × ((w : Derived → ℕ) → total w (sort_derived_states items) ≡ total w items)
unfolding sort_derived_states
sort_derived_states-sorted items = (
  descended-AscendsFrom (sort_from [] items) (sort_from-Descends [] items tt),
  λ w. turn-total w [] (sort_from [] items) ∙ omega (arith, sort_from-total w [] items),
)
