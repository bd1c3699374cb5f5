-- ===== src/Gmp.antt =====
-- The part of the GNU multiple precision library that var_base_reader.h and var_base_writer.h
-- call: an interface with GMP's documented behaviour on non-negative integers as its laws.
use investigate_lack_of_pgo.Prelude.{ℕ, ◌+◌, ◌*◌, ◌/◌, ◌%◌, ◌^◌, ◌<◌, ◌≡◌, refl, Bool, ◌==◌}

pub record Gmp : Type 1 where
  -- mpz_t, and the integer that it holds
  pub Mpz : Type 0
  pub value : Mpz → ℕ
  pub set_ui : ℕ → Mpz
  pub add : Mpz → Mpz → Mpz
  pub addmul_ui : Mpz → Mpz → ℕ → Mpz
  pub mul_ui : Mpz → ℕ → Mpz
  pub mul_2exp : Mpz → ℕ → Mpz
  pub fdiv_q_ui : Mpz → ℕ → Mpz
  pub fdiv_r_ui : Mpz → ℕ → Mpz
  pub fdiv_q_2exp : Mpz → ℕ → Mpz
  pub fdiv_r_2exp : Mpz → ℕ → Mpz
  -- mpz_cmp_ui(a, n) == 0
  pub equals_ui : Mpz → ℕ → Bool
  pub get_ui : Mpz → ℕ
  pub set_ui_value : (n : ℕ) → value (set_ui n) ≡ n
  pub add_value : (a b : Mpz) → value (add a b) ≡ value a + value b
  pub addmul_ui_value : (r a : Mpz) (n : ℕ) → value (addmul_ui r a n) ≡ value r + value a * n
  pub mul_ui_value : (a : Mpz) (n : ℕ) → value (mul_ui a n) ≡ value a * n
  pub mul_2exp_value : (a : Mpz) (k : ℕ) → value (mul_2exp a k) ≡ value a * 2 ^ k
  pub fdiv_q_ui_value : (a : Mpz) (n : ℕ) → 0 < n → value (fdiv_q_ui a n) ≡ value a / n
  pub fdiv_r_ui_value : (a : Mpz) (n : ℕ) → 0 < n → value (fdiv_r_ui a n) ≡ value a % n
  pub fdiv_q_2exp_value : (a : Mpz) (k : ℕ) → value (fdiv_q_2exp a k) ≡ value a / 2 ^ k
  pub fdiv_r_2exp_value : (a : Mpz) (k : ℕ) → value (fdiv_r_2exp a k) ≡ value a % 2 ^ k
  pub equals_ui_value : (a : Mpz) (n : ℕ) → equals_ui a n ≡ (value a == n)
  -- the low bits of the integer, as an unsigned long of 64 bits
  pub get_ui_value : (a : Mpz) → get_ui a ≡ value a % 2 ^ 64

-- The native numbers themselves meet the laws.
abbrev pub native_gmp : Gmp
native_gmp = record {
  Mpz = ℕ;
  value = λ a. a;
  set_ui = λ n. n;
  add = λ a b. a + b;
  addmul_ui = λ r a n. r + a * n;
  mul_ui = λ a n. a * n;
  mul_2exp = λ a k. a * 2 ^ k;
  fdiv_q_ui = λ a n. a / n;
  fdiv_r_ui = λ a n. a % n;
  fdiv_q_2exp = λ a k. a / 2 ^ k;
  fdiv_r_2exp = λ a k. a % 2 ^ k;
  equals_ui = λ a n. a == n;
  get_ui = λ a. a % 2 ^ 64;
  set_ui_value = λ n. refl;
  add_value = λ a b. refl;
  addmul_ui_value = λ r a n. refl;
  mul_ui_value = λ a n. refl;
  mul_2exp_value = λ a k. refl;
  fdiv_q_ui_value = λ a n h. refl;
  fdiv_r_ui_value = λ a n h. refl;
  fdiv_q_2exp_value = λ a k. refl;
  fdiv_r_2exp_value = λ a k. refl;
  equals_ui_value = λ a n. refl;
  get_ui_value = λ a. refl;
}
