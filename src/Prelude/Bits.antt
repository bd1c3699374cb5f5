-- ===== src/Prelude/Bits.antt =====
-- Bit operations as arithmetic, at every width.
use Prim.Native.Nat.{
  ℕ, zero, suc, ◌+◌, ◌*◌, ◌/◌, ◌%◌, ◌^◌, ◌≤◌, ◌<◌, max, bit_or, digits, bit_or-bitwise,
}
use mathlib.Core.Path.{◌≡◌, refl, ◌∙◌, ap}
use native.Mathlib.Nat.{pow-suc, mod-add-div', div-div-eq-div-mul}
use native.Mathlib.Omega.{arith}

-- the definition of the native operation, at some fuel
abbrev or_digits : ℕ → ℕ → ℕ → ℕ
or_digits fuel a b = digits (λ b. b) max fuel a b

or_digits-zero : (fuel b : ℕ) → or_digits fuel 0 b ≡ b
or_digits-zero zero b = refl
or_digits-zero (suc fuel) b = refl

-- More fuel than the first number changes nothing.
or_digits_enough :
    (fuel more a b : ℕ) → a ≤ fuel → fuel ≤ more → or_digits more a b ≡ or_digits fuel a b
or_digits_enough zero more zero b p q = or_digits-zero more b
or_digits_enough zero more (suc a) b p q = absurd (omega arith)
or_digits_enough (suc fuel) zero a b p q = absurd (omega arith)
or_digits_enough (suc fuel) (suc more) zero b p q = refl
or_digits_enough (suc fuel) (suc more) (suc a) b p q =
    ap (λ t. t * 2 + max (suc a % 2) (b % 2))
      (or_digits_enough fuel more (suc a / 2) (b / 2) (omega arith) (omega arith))

pub zero-bit_or : (b : ℕ) → bit_or 0 b ≡ b
zero-bit_or b = bit_or-bitwise 0 b

pub bit_or_step : (a b : ℕ) → bit_or a b ≡ bit_or (a / 2) (b / 2) * 2 + max (a % 2) (b % 2)
bit_or_step zero b = omega (arith, zero-bit_or b, zero-bit_or (b / 2))
bit_or_step (suc a) b =
    let half = suc a / 2 in
    let fuel : or_digits a half (b / 2) ≡ or_digits half half (b / 2) =
      or_digits_enough half a half (b / 2) (omega arith) (omega arith) in
    omega (arith, bit_or-bitwise half (b / 2), fuel, bit_or-bitwise (suc a) b)

-- `a | (b << k)` is a sum where `a` has at most `k` bits.
pub bit_or_shift : (k a b : ℕ) → a < 2 ^ k → bit_or a (b * 2 ^ k) ≡ a + b * 2 ^ k
bit_or_shift zero zero b h = zero-bit_or (b * 2 ^ 0) ∙ omega arith
bit_or_shift zero (suc a) b h = absurd (omega arith)
bit_or_shift (suc k) a b h =
    let doubled : b * 2 ^ suc k ≡ b * 2 ^ k * 2 = rw pow-suc (omega arith) in
    let half : b * 2 ^ suc k / 2 ≡ b * 2 ^ k = rw doubled (omega arith) in
    let bound : a / 2 < 2 ^ k = omega (arith, pow-suc 2 k) in
    let inner : bit_or (a / 2) (b * 2 ^ suc k / 2) ≡ a / 2 + b * 2 ^ k =
      rw half (bit_or_shift k (a / 2) b bound) in
    omega (arith, bit_or_step a (b * 2 ^ suc k), inner, doubled)

-- The low `k` bits of `d`, added up one by one, are `d % 2 ^ k`.
pub mod_pow_step : (k d : ℕ) → d % 2 ^ suc k ≡ d % 2 ^ k + d / 2 ^ k % 2 * 2 ^ k
mod_pow_step k d = rw pow-suc (mod_double (2 ^ k))
  where
    mod_double : (p : ℕ) → d % (p * 2) ≡ d % p + d / p % 2 * p
    mod_double p =
        let quotient : d / p ≡ d / p / 2 * 2 + d / p % 2 = omega arith in
        omega (
          arith,
          mod-add-div' d (p * 2),
          mod-add-div' d p,
          ap (λ t. t * (p * 2)) (div-div-eq-div-mul d p 2),
          ap (λ t. t * p) quotient,
        )

pub two_pow_pos : (k : ℕ) → 0 < 2 ^ k
two_pow_pos zero = omega arith
two_pow_pos (suc k) = omega (arith, pow-suc 2 k, two_pow_pos k)
