-- ===== src/Pqueue/Push.antt =====
-- fc_solve_pq_push restores the heap order and adds one element.
use investigate_lack_of_pgo.Prelude.{
  ℕ, zero, suc, ◌+◌, ◌/◌, ◌≤◌, ◌≡◌, ◌≢◌, refl, ◌∙◌, ◌⊎◌, update, arith, ◌==◌, if◌then◌else◌, some,
  Bool-cases, inl, inr, sum_below, sum_below_cong,
}
use native.Mathlib.Numerals.{add-one}
use investigate_lack_of_pgo.Prelude.Int.{ℤ, ◌≤ℤ◌, ltb_ℤ}
use investigate_lack_of_pgo.Pqueue.{Element, Pqueue, max_rating, sift_up, finish_push, push}
use investigate_lack_of_pgo.Pqueue.Cells.{tally, tally-update, IsHeap, IsValid}

module _ {V : Type 0} where
  -- A heap with a hole at `i` that an element of rating `r` may fill as far as its children go.
  record Rising (n i : ℕ) (r : ℤ) (e : ℕ → Element V) : Type 0 where
    positive : 1 ≤ i
    inside : i ≤ n
    edges : (j : ℕ) → 2 ≤ j → j ≤ n → j ≢ i → j / 2 ≢ i → (e j).rating ≤ℤ (e (j / 2)).rating
    below : (j : ℕ) → 2 ≤ j → j ≤ n → j / 2 ≡ i → (e j).rating ≤ℤ r
    bridged : (j : ℕ) → 2 ≤ i → j ≤ n → j / 2 ≡ i → (e j).rating ≤ℤ (e (i / 2)).rating

  -- The hole `out.1` of the cells `out.0`, filled with `x`: a heap of the elements of `e` with
  -- `x` in its hole `i`.
  pub record Settled (n i : ℕ) (x : Element V) (e : ℕ → Element V) (out : (ℕ → Element V) × ℕ)
      : Type 0 where
    pub positive : 1 ≤ out.1
    pub inside : out.1 ≤ n
    pub heap : IsHeap n (update out.0 out.1 x)
    pub same :
        (weight : Element V → ℕ)
        → tally weight n (update out.0 out.1 x) ≡ tally weight n (update e i x)

  raise-Rising :
      (n i : ℕ) (r : ℤ) (e : ℕ → Element V)
      → Rising n i r e
      → 2 ≤ i
      → (e (i / 2)).rating ≤ℤ r
      → Rising n (i / 2) r (update e i (e (i / 2)))
  raise-Rising n i r e v h above = record {
    positive = omega arith;
    inside = omega arith;
    edges = λ j a b c d. ground (arith, v.edges j a b, v.bridged j h b);
    below = λ j a b c. ground (arith, v.edges j a b);
    bridged = λ j a b c. ground (arith, v.edges j (omega arith) b, v.edges (i / 2) a (omega arith));
  }

  -- Moving the parent into the hole moves the hole, and no element is lost.
  pub tally-raise :
      (weight : Element V → ℕ) (n i k : ℕ) (x : Element V) (e : ℕ → Element V)
      → 1 ≤ i
      → i ≤ n
      → 1 ≤ k
      → k ≤ n
      → k ≢ i
      → tally weight n (update (update e i (e k)) k x) ≡ tally weight n (update e i x)
  tally-raise weight n i k x e a b c d ne = ground (
    arith,
    tally-update weight n (update e i (e k)) k x c d,
    tally-update weight n e i (e k) a b,
    tally-update weight n e i x a b,
  )

  filled-IsHeap :
      (n i : ℕ) (x : Element V) (e : ℕ → Element V)
      → Rising n i x.rating e
      → (i ≡ 1) ⊎ (x.rating ≤ℤ (e (i / 2)).rating)
      → IsHeap n (update e i x)
  filled-IsHeap n i x e v stop j a b = ground (arith, v.edges j a b, v.below j a b)

  sift_up_lem :
      (fuel n i : ℕ) (x : Element V) (e : ℕ → Element V)
      → i ≤ fuel
      → x.rating ≤ℤ max_rating
      → Rising n i x.rating e
      → (out : (ℕ → Element V) × ℕ) × (sift_up fuel e i x.rating ≡ some out) × Settled n i x e out
  unfolding sift_up
  sift_up_lem zero n i x e f m v = absurd (omega arith)
  sift_up_lem (suc fuel) n i x e f m v =
      elim (Bool-cases (ltb_ℤ (if i == 1 then max_rating else (e (i / 2)).rating) x.rating)) [
        | inl up ↦
            let two : 2 ≤ i = ground (arith, v.positive) in
            let above : (e (i / 2)).rating ≤ℤ x.rating = ground arith in
            let half : 1 ≤ i / 2 = omega arith in
            let (out, found, s) =
              sift_up_lem fuel n (i / 2) x (update e i (e (i / 2))) (omega arith) m
                (raise-Rising n i x.rating e v two above) in
            (
              out,
              rw up found,
              record {
                positive = s.positive;
                inside = s.inside;
                heap = s.heap;
                same = λ weight.
                    s.same weight
                    ∙ tally-raise weight n i (i / 2) x e v.positive v.inside half
                        (omega (arith, v.inside)) (omega arith);
              },
            )
        | inr stay ↦ (
          (e, i),
          rw stay,
          record {
            positive = v.positive;
            inside = v.inside;
            heap = filled-IsHeap n i x e v (ground (arith, v.positive));
            same = λ weight. refl;
          },
        )
      ]

  -- What a push leaves: a valid queue of one element more, `x` beside the old ones.
  pub record Pushed (pq : Pqueue V) (x : Element V) (pq' : Pqueue V) : Type 0 where
    pub valid : IsValid pq'
    pub size : pq'.current_size ≡ pq.current_size + 1
    pub same :
        (weight : Element V → ℕ)
        → tally weight pq'.current_size pq'.elements
          ≡ tally weight pq.current_size pq.elements + weight x

  fresh-Rising : (n : ℕ) (r : ℤ) (e : ℕ → Element V) → IsHeap n e → Rising (n + 1) (n + 1) r e
  fresh-Rising n r e h = record {
    positive = omega arith;
    inside = omega arith;
    edges = λ j a b c d. h j a (omega arith);
    below = λ j a b c. absurd (omega arith);
    bridged = λ j a b c. absurd (omega arith);
  }

  tally-fresh :
      (weight : Element V → ℕ) (n : ℕ) (x : Element V) (e : ℕ → Element V)
      → tally weight (n + 1) (update e (n + 1) x) ≡ tally weight n e + weight x
  unfolding sum_below
  tally-fresh weight n x e = rw add-one (
      ground (
        arith,
        sum_below_cong n (λ j. weight (update e (suc n) x (suc j))) (λ j. weight (e (suc j)))
            (λ j h. ground arith),
      ))

  -- `fc_solve_pq_push` ends, whatever the size of the queue. It keeps the heap order and the room,
  -- and the elements are those from before and the new one, each as often.
  pub push-Pushed :
      (pq : Pqueue V) (v : V) (r : ℤ)
      → IsValid pq
      → r ≤ℤ max_rating
      → (pq' : Pqueue V) × (push pq v r ≡ some pq') × Pushed pq (record { val = v; rating = r }) pq'
  unfolding push sift_up
  push-Pushed pq v r h m =
      let x : Element V = record { val = v; rating = r } in
      let n = pq.current_size in
      let (out, found, s) =
        sift_up_lem (n + 1) (n + 1) (n + 1) x pq.elements (omega arith) m
          (fresh-Rising n r pq.elements h.heap) in
      (
        finish_push pq v r out,
        rw (found, push),
        record {
          valid = record { heap = s.heap; room = ground (arith, h.room) };
          size = refl;
          same = λ weight. s.same weight ∙ tally-fresh weight n x pq.elements;
        },
      )
