-- ===== src/Freecell/Loops.antt =====
-- The loops of the tests: searches for the first index that passes, and loops that add derived
-- states to the list.
use native.Mathlib.Nat.{zero-add}
use investigate_lack_of_pgo.Prelude.{
  ℕ, zero, suc, ◌+◌, ◌≤◌, ◌<◌, ◌≡◌, refl, arith, Bool, true, false, Bool-cases, inl, inr,
  if◌then◌else◌, Option, some, none, List, [], ◌∷◌, ◌++◌, All, subst, ◌==◌, ltb, ◌-◌,
}

-- the first index from `i` on that passes, `i + rounds` if none of the `rounds` of them does
unfoldable pub find_from : (ℕ → Bool) → ℕ → ℕ → ℕ
find_from test i zero = i
find_from test i (suc rounds) =
    let rest = find_from test (i + 1) rounds in if test i then i else rest

-- How many of the `rounds` indices from `i` on pass.
unfoldable pub count_from : (ℕ → Bool) → ℕ → ℕ → ℕ
count_from test i zero = 0
count_from test i (suc rounds) = (if test i then 1 else 0) + count_from test (i + 1) rounds

-- The index found passes unless it is the limit, and no index before it does.
pub record FoundFrom (test : ℕ → Bool) (i rounds found : ℕ) : Type 0 where
  pub from : i ≤ found
  pub below : found ≤ i + rounds
  pub passes : found < i + rounds → test found ≡ true
  pub first : (j : ℕ) → i ≤ j → j < found → test j ≡ false

pub find_from-FoundFrom :
    (test : ℕ → Bool) (i rounds : ℕ) → FoundFrom test i rounds (find_from test i rounds)
unfolding find_from
find_from-FoundFrom test i zero = record {
  from = omega arith;
  below = omega arith;
  passes = λ h. absurd (omega arith);
  first = λ j h k. absurd (omega arith);
}
find_from-FoundFrom test i (suc rounds) = elim (Bool-cases (test i)) [
  | inl e ↦ rw e (record {
    from = omega arith;
    below = omega arith;
    passes = λ h. e;
    first = λ j h k. absurd (omega arith);
  })
  | inr e ↦
      let rest = find_from-FoundFrom test (i + 1) rounds in
      rw e (record {
        from = omega (arith, rest.from);
        below = omega (arith, rest.below);
        passes = λ h. rest.passes (omega arith);
        first = λ j h k. elim (Bool-cases (i == j)) [
          | inl same ↦ subst (λ q. test q ≡ false) (ground arith) e
          | inr other ↦ rest.first j (ground arith) k
        ];
      })
]

module _ {A : Type 0} where
  -- one part of the list after the other, unless there was a failure
  unfoldable pub append_lists : Option (List A) → Option (List A) → Option (List A)
  append_lists (some xs) (some ys) = some (xs ++ ys)
  append_lists _ _ = none

  -- for (i = from; i < from + rounds; i++)
  unfoldable pub for_from : ℕ → ℕ → (ℕ → Option (List A)) → Option (List A)
  unfolding append_lists
  for_from i zero body = some []
  for_from i (suc rounds) body = append_lists (body i) (for_from (i + 1) rounds body)

  -- There was no failure, and every item of the list has the property.
  abbrev pub Yields : (A → Type 0) → Option (List A) → Type 0
  Yields P (some xs) = All P xs
  Yields P none = ⊥

  pub All-append : (P : A → Type 0) (xs ys : List A) → All P xs → All P ys → All P (xs ++ ys)
  All-append P [] ys h k = k
  All-append P (x ∷ xs) ys (h, hs) k = (h, All-append P xs ys hs k)

  pub append_lists-Yields :
      (P : A → Type 0) (a b : Option (List A))
      → Yields P a
      → Yields P b
      → Yields P (append_lists a b)
  unfolding append_lists
  append_lists-Yields P (some xs) (some ys) h k = All-append P xs ys h k
  append_lists-Yields P (some xs) none h k = absurd k
  append_lists-Yields P none b h k = absurd h

  pub for_from-Yields :
      (P : A → Type 0) (i rounds : ℕ) (body : ℕ → Option (List A))
      → ((j : ℕ) → i ≤ j → j < i + rounds → Yields P (body j))
      → Yields P (for_from i rounds body)
  unfolding for_from
  for_from-Yields P i zero body h = tt
  for_from-Yields P i (suc rounds) body h =
      append_lists-Yields P (body i) (for_from (i + 1) rounds body)
        (h i (omega arith) (omega arith))
        (for_from-Yields P (i + 1) rounds body (λ j k l. h j (omega arith) (omega arith)))

  -- A step under a test yields what it should when the test passes.
  pub if-Yields :
      (P : A → Type 0) (c : Bool) (a : Option (List A))
      → (c ≡ true → Yields P a)
      → Yields P (if c then a else some [])
  if-Yields P true a h = h refl
  if-Yields P false a h = tt

pub count_from-cong :
    (test test' : ℕ → Bool) (i rounds : ℕ)
    → ((j : ℕ) → i ≤ j → j < i + rounds → test j ≡ test' j)
    → count_from test i rounds ≡ count_from test' i rounds
unfolding count_from
count_from-cong test test' i zero h = refl
count_from-cong test test' i (suc rounds) h =
    let rest =
      count_from-cong test test' (i + 1) rounds (λ j k l. h j (omega arith) (omega arith)) in
    let here = h i (omega arith) (omega arith) in ground (arith, rest, here)

-- Counting goes on behind the first index that passes, and there is nothing to count without one.
pub count_from-find :
    (test : ℕ → Bool) (i rounds n : ℕ)
    → i + rounds ≡ n
    → count_from test i rounds ≡ (
        if ltb (find_from test i rounds) n
        then 1 + count_from test (find_from test i rounds + 1) (n - (find_from test i rounds + 1))
        else 0)
unfolding count_from find_from
count_from-find test i zero n h = ground (arith, h)
count_from-find test i (suc rounds) n h = elim (Bool-cases (test i)) [
  | inl e ↦
      let lt : ltb i n ≡ true = ground (arith, h) in
      let left : n - (i + 1) ≡ rounds = omega (arith, h) in rw (e, lt, left) refl
  | inr e ↦ rw (e, zero-add) (count_from-find test (i + 1) rounds n (omega (arith, h)))
]

-- The failure of a step is a failure of what follows; a step that gives a value hands it on.
abbrev pub and_then : {A B : Type 0} → Option A → (A → Option B) → Option B
and_then (some a) f = f a
and_then none f = none

abbrev pub Succeeds : {A : Type 0} → (A → Type 0) → Option A → Type 0
Succeeds P (some a) = P a
Succeeds P none = ⊥

pub and_then-Yields :
    {A B : Type 0} (P : A → Type 0) (Q : B → Type 0) (o : Option A) (f : A → Option (List B))
    → Succeeds P o
    → ((a : A) → P a → Yields Q (f a))
    → Yields Q (and_then o f)
and_then-Yields P Q (some a) f h k = k a h
and_then-Yields P Q none f h k = absurd h

pub Succeeds-map :
    {A : Type 0} (P Q : A → Type 0) (o : Option A)
    → ((a : A) → P a → Q a)
    → Succeeds P o
    → Succeeds Q o
Succeeds-map P Q (some a) f h = f a h
Succeeds-map P Q none f h = h

module _ {A : Type 0} where
  -- for (i = rounds - 1; i >= 0; i--)
  unfoldable pub for_down : ℕ → (ℕ → Option (List A)) → Option (List A)
  unfolding append_lists
  for_down zero body = some []
  for_down (suc i) body = append_lists (body i) (for_down i body)

  pub for_down-Yields :
      (P : A → Type 0) (rounds : ℕ) (body : ℕ → Option (List A))
      → ((j : ℕ) → j < rounds → Yields P (body j))
      → Yields P (for_down rounds body)
  unfolding for_down
  for_down-Yields P zero body h = tt
  for_down-Yields P (suc i) body h =
      append_lists-Yields P (body i) (for_down i body) (h i (omega arith))
        (for_down-Yields P i body (λ j k. h j (omega arith)))

pub count_from-le : (test : ℕ → Bool) (i rounds : ℕ) → count_from test i rounds ≤ rounds
unfolding count_from
count_from-le test i zero = omega arith
count_from-le test i (suc rounds) = ground (arith, count_from-le test (i + 1) rounds)

-- A count that is not zero finds an index.
pub find_from-counted :
    (test : ℕ → Bool) (i n : ℕ)
    → 1 ≤ count_from test i (n - i)
    → (find_from test i (n - i) < n) × (test (find_from test i (n - i)) ≡ true)
find_from-counted test i n h =
    let some_left = count_from-le test i (n - i) in
    let found = find_from-FoundFrom test i (n - i) in
    let lt : find_from test i (n - i) < n =
      ground (arith, h, count_from-find test i (n - i) n (omega (arith, h, some_left))) in
    (lt, found.passes (omega (arith, lt, h, some_left)))
