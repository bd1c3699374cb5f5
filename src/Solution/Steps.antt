-- ===== src/Solution/Steps.antt =====
-- A move and its normalized form do the same to a state and to the one that it follows.
use investigate_lack_of_pgo.Prelude.{ℕ, zero, suc, ◌+◌, ◌-◌, ◌<◌, ◌≡◌, refl, sym, ap, ap₂, length}
use investigate_lack_of_pgo.State.{
  State, Dims, Column, set_col, increment_foundation, col_push_card, col_pop_top, col_get_card,
  col_top,
}
use investigate_lack_of_pgo.Card.{empty_card}
use investigate_lack_of_pgo.State.Canonize.{Locs}
use investigate_lack_of_pgo.Move.{Move, MoveType, push_seq, pop_cards, seq_up, apply_move}
use investigate_lack_of_pgo.Move.Single.{IsLegalOf}
use investigate_lack_of_pgo.Move.Stack.{replay}
use investigate_lack_of_pgo.Solution.{Normalizing, normalize_move, apply_with_locs}
use investigate_lack_of_pgo.Solution.Follow.{
  Follows, set_col-Follows, put_card-Follows, increment-Follows, canonize_with_locs-Follows,
}
use investigate_lack_of_pgo.Solution.Rules.{move_of, IsMade, Rule}
use investigate_lack_of_pgo.Solution.Plain.{plain_step}
use investigate_lack_of_pgo.Move.Played.{StackedAll}

module _ (d : Dims) (l : Locs) where
  push_seq-Follows :
      (u s : State) (src dest num rounds i : ℕ)
      → Follows d u s l
      → src < d.stacks_num
      → dest < d.stacks_num
      → Follows d
          (push_seq u (l.stack_locs src) (l.stack_locs dest) num rounds i)
          (push_seq s src dest num rounds i)
          l
  unfolding push_seq
  push_seq-Follows u s src dest num zero i f h k = f
  push_seq-Follows u s src dest num (suc rounds) i f h k =
      let card : Column → ℕ = λ col. col_get_card col (length col - num + i) in
      let us = u.stacks (l.stack_locs src) in
      let same : col_push_card (u.stacks (l.stack_locs dest)) (card us)
          ≡ col_push_card (s.stacks dest) (card (s.stacks src)) =
        ap₂ (λ a b. col_push_card a (card b)) (sym (f.columns dest k)) (sym (f.columns src h)) in
      push_seq-Follows
        (set_col u (l.stack_locs dest) (col_push_card (u.stacks (l.stack_locs dest)) (card us)))
        (set_col s dest (col_push_card (s.stacks dest) (card (s.stacks src)))) src dest num rounds
        (i + 1) (set_col-Follows d u s l f dest _ _ k same) h k

  pop_top-Follows :
      (u s : State) (src : ℕ)
      → Follows d u s l
      → src < d.stacks_num
      → Follows d
          (set_col u (l.stack_locs src) (col_pop_top (u.stacks (l.stack_locs src))))
          (set_col s src (col_pop_top (s.stacks src)))
          l
  pop_top-Follows u s src f h =
      set_col-Follows d u s l f src _ _ h (ap col_pop_top (sym (f.columns src h)))

  pop_cards-Follows :
      (u s : State) (src rounds : ℕ)
      → Follows d u s l
      → src < d.stacks_num
      → Follows d (pop_cards u (l.stack_locs src) rounds) (pop_cards s src rounds) l
  unfolding pop_cards
  pop_cards-Follows u s src zero f h = f
  pop_cards-Follows u s src (suc rounds) f h =
      pop_cards-Follows (set_col u (l.stack_locs src) (col_pop_top (u.stacks (l.stack_locs src))))
        (set_col s src (col_pop_top (s.stacks src))) src rounds (pop_top-Follows u s src f h) h

  seq_up-Follows :
      (u s : State) (src dest rounds : ℕ)
      → Follows d u s l
      → src < d.stacks_num
      → Follows d (seq_up u (l.stack_locs src) dest rounds) (seq_up s src dest rounds) l
  unfolding seq_up
  seq_up-Follows u s src dest zero f h = f
  seq_up-Follows u s src dest (suc rounds) f h =
      seq_up-Follows
        (increment_foundation
          (set_col u (l.stack_locs src) (col_pop_top (u.stacks (l.stack_locs src)))) dest)
        (increment_foundation (set_col s src (col_pop_top (s.stacks src))) dest) src dest rounds
        (increment-Follows d _ _ l (pop_top-Follows u s src f h) dest) h

-- What has been normalized so far meets the rules from the first state, and leads to a state that the
-- dynamic one follows.
pub record IsNormalizing (d : Dims) (P : State → Move → Type 0) (init : State) (n : Normalizing)
    : Type 0 where
  pub follows : Follows d (replay d init n.temp_moves) n.dynamic_state n.locs
  pub ruled : StackedAll P d init n.temp_moves

module _ (d : Dims) (P : State → Move → Type 0) (rule : Rule d P) (init : State) (n : Normalizing)
    (v : IsNormalizing d P init n) where
  made-ruled :
      (t : MoveType) (src dest num : ℕ)
      → P n.dynamic_state (move_of t src dest num)
      → IsMade t
      → StackedAll P d init n.temp_moves
        × P (replay d init n.temp_moves) (normalize_move n.locs n.out_move (move_of t src dest num))
  made-ruled t src dest num h made =
      (v.ruled, rule.carried _ _ n.locs n.out_move t src dest num v.follows h made)

  step_of_type-IsNormalizing :
      (t : MoveType) (src dest num : ℕ)
      → P n.dynamic_state (move_of t src dest num)
      → IsLegalOf t d n.dynamic_state src dest num
      → IsNormalizing d P init (plain_step d n (move_of t src dest num))
  unfolding plain_step apply_with_locs normalize_move apply_move replay
  step_of_type-IsNormalizing MoveType.stack_to_stack src dest num p (a, b, ne, k) = record {
    follows =
        pop_cards-Follows d n.locs _ _ src num
          (push_seq-Follows d n.locs _ _ src dest num num 0 v.follows a b) a;
    ruled = made-ruled MoveType.stack_to_stack src dest num p tt;
  }
  step_of_type-IsNormalizing MoveType.stack_to_freecell src dest num p (a, b, k, free) = record {
    follows =
        put_card-Follows d _ _ n.locs (pop_top-Follows d n.locs _ _ src v.follows a) dest _ _ b
          (ap col_top (sym (v.follows.columns src a)));
    ruled = made-ruled MoveType.stack_to_freecell src dest num p tt;
  }
  step_of_type-IsNormalizing MoveType.freecell_to_stack src dest num p (a, b) = record {
    follows =
        put_card-Follows d _ _ n.locs
          (set_col-Follows d _ _ n.locs v.follows dest _ _ b
            (ap₂ col_push_card (sym (v.follows.columns dest b)) (sym (v.follows.cells src a))))
          src empty_card empty_card a refl;
    ruled = made-ruled MoveType.freecell_to_stack src dest num p tt;
  }
  step_of_type-IsNormalizing MoveType.freecell_to_freecell src dest num p (a, b, ne, free) =
      record {
        follows =
            put_card-Follows d _ _ n.locs
              (put_card-Follows d _ _ n.locs v.follows dest _ _ b (sym (v.follows.cells src a))) src
              empty_card empty_card a refl;
        ruled = made-ruled MoveType.freecell_to_freecell src dest num p tt;
      }
  step_of_type-IsNormalizing MoveType.stack_to_foundation src dest num p (a, b, k, next) = record {
    follows = increment-Follows d _ _ n.locs (pop_top-Follows d n.locs _ _ src v.follows a) dest;
    ruled = made-ruled MoveType.stack_to_foundation src dest num p tt;
  }
  step_of_type-IsNormalizing MoveType.freecell_to_foundation src dest num p (a, b, next) = record {
    follows =
        increment-Follows d _ _ n.locs
          (put_card-Follows d _ _ n.locs v.follows src empty_card empty_card a refl) dest;
    ruled = made-ruled MoveType.freecell_to_foundation src dest num p tt;
  }
  step_of_type-IsNormalizing MoveType.seq_to_foundation src dest num p (a, b, k, run) = record {
    follows = seq_up-Follows d n.locs _ _ src dest 13 v.follows a;
    ruled = made-ruled MoveType.seq_to_foundation src dest num p tt;
  }
  step_of_type-IsNormalizing MoveType.canonize_move src dest num p h = record {
    follows = canonize_with_locs-Follows d _ n.dynamic_state n.locs v.follows;
    ruled = v.ruled;
  }
  step_of_type-IsNormalizing MoveType.flip_card src dest num p h = record {
    follows = v.follows;
    ruled = made-ruled MoveType.flip_card src dest num p tt;
  }
  step_of_type-IsNormalizing MoveType.deal_gypsy_talon src dest num p h = record {
    follows = v.follows;
    ruled = made-ruled MoveType.deal_gypsy_talon src dest num p tt;
  }
  step_of_type-IsNormalizing MoveType.klondike_talon_to_stack src dest num p h = record {
    follows = v.follows;
    ruled = made-ruled MoveType.klondike_talon_to_stack src dest num p tt;
  }
  step_of_type-IsNormalizing MoveType.klondike_flip_talon src dest num p h = record {
    follows = v.follows;
    ruled = made-ruled MoveType.klondike_flip_talon src dest num p tt;
  }
  step_of_type-IsNormalizing MoveType.klondike_redeal_talon src dest num p h = record {
    follows = v.follows;
    ruled = made-ruled MoveType.klondike_redeal_talon src dest num p tt;
  }
  step_of_type-IsNormalizing MoveType.separator src dest num p h = record {
    follows = v.follows;
    ruled = made-ruled MoveType.separator src dest num p tt;
  }
  step_of_type-IsNormalizing MoveType.null src dest num p h = record {
    follows = v.follows;
    ruled = made-ruled MoveType.null src dest num p tt;
  }

  pub plain_step-IsNormalizing :
      (m : Move) → P n.dynamic_state m → IsNormalizing d P init (plain_step d n m)
  plain_step-IsNormalizing m p =
      step_of_type-IsNormalizing m.type m.src m.dest m.num_cards_in_seq p (rule.legal _ m p)
