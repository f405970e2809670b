-- ===== src/Prelude/Bits.antt =====
-- Go's `|` of disjoint bit fields and `&` with a mask of ones, as arithmetic, at every width.
use Prim.Native.Nat.{
  ℕ, zero, suc, ◌+◌, ◌-◌, ◌*◌, ◌/◌, ◌%◌, ◌^◌, ◌≤◌, ◌<◌, min, max, bit_and, bit_or, digits,
  bit_and-bitwise, bit_or-bitwise,
}
use mathlib.Core.Path.{◌≡◌, refl, ap}
use native.Mathlib.Nat.{pow-suc, one-le-pow}
use native.Mathlib.Omega.{arith}

double_field : (q k : ℕ) → q * 2 ^ suc k ≡ q * 2 ^ k + q * 2 ^ k
double_field q k = omega (arith, ap (λ (p : ℕ). q * p) (pow-suc 2 k))

-- The digit recursion behind `|`, with at least as much fuel `n` as the high field `a` needs.
or_digits : (k n a q b : ℕ) → a ≡ q * 2 ^ k → a ≤ n → b < 2 ^ k → digits (λ d. d) max n a b ≡ a + b
or_digits k zero zero q b e le lt = omega arith
or_digits k zero (suc a) q b e le lt = absurd (omega arith)
or_digits k (suc n) zero q b e le lt = omega arith
or_digits zero (suc n) (suc a) q b e le lt = omega (
  arith,
  or_digits zero n (suc a / 2) (suc a / 2) (b / 2) (omega arith) (omega arith) (omega arith),
)
or_digits (suc k) (suc n) (suc a) q b e le lt = omega (
  arith,
  double_field q k,
  or_digits k n (suc a / 2) q (b / 2) (omega (arith, double_field q k)) (omega arith)
      (omega (arith, pow-suc 2 k)),
)

-- A field at bit `k` or a smaller number is their sum.
pub bit_or_add : (k q b : ℕ) → b < 2 ^ k → bit_or (q * 2 ^ k) b ≡ q * 2 ^ k + b
bit_or_add k q b lt = omega (
  arith,
  bit_or-bitwise (q * 2 ^ k) b,
  or_digits k (q * 2 ^ k) (q * 2 ^ k) q b refl (omega arith) lt,
)

pub bit_or-zero : (a : ℕ) → bit_or a 0 ≡ a
bit_or-zero a =
    let whole : a * 2 ^ 0 ≡ a = omega arith in
    let sum : bit_or a 0 ≡ a + 0 = rw whole at (bit_or_add 0 a 0 (omega arith)) in omega arith

-- The same with the low field first.
or_digits_low :
    (k n a q b : ℕ) → a < 2 ^ k → a ≤ n → b ≡ q * 2 ^ k → digits (λ d. d) max n a b ≡ a + b
or_digits_low k zero zero q b lt le e = omega arith
or_digits_low k zero (suc a) q b lt le e = absurd (omega arith)
or_digits_low k (suc n) zero q b lt le e = omega arith
or_digits_low zero (suc n) (suc a) q b lt le e = absurd (omega arith)
or_digits_low (suc k) (suc n) (suc a) q b lt le e = omega (
  arith,
  double_field q k,
  or_digits_low k n (suc a / 2) q (b / 2) (omega (arith, pow-suc 2 k)) (omega arith)
      (omega (arith, double_field q k)),
)

pub bit_or_add_low : (k a q : ℕ) → a < 2 ^ k → bit_or a (q * 2 ^ k) ≡ a + q * 2 ^ k
bit_or_add_low k a q lt =
    omega
      (arith, bit_or-bitwise a (q * 2 ^ k), or_digits_low k a a q (q * 2 ^ k) lt (omega arith) refl)

-- The digit recursion behind `&`, of a number split at bit `k` with the mask of `k` ones.
and_digits :
    (k n a q r : ℕ)
    → a ≡ q * 2 ^ k + r
    → a ≤ n
    → r < 2 ^ k
    → digits (λ d. 0) min n a (2 ^ k - 1) ≡ r
and_digits k zero zero q r e le lt = omega arith
and_digits k zero (suc a) q r e le lt = absurd (omega arith)
and_digits k (suc n) zero q r e le lt = omega arith
and_digits zero (suc n) (suc a) q r e le lt =
    omega
      (arith, and_digits zero n (suc a / 2) (suc a / 2) 0 (omega arith) (omega arith) (omega arith))
and_digits (suc k) (suc n) (suc a) q r e le lt =
    let half : (2 ^ suc k - 1) / 2 ≡ 2 ^ k - 1 = omega (arith, pow-suc 2 k, one-le-pow k 2) in
    rw half (
      omega (
        arith,
        double_field q k,
        pow-suc 2 k,
        one-le-pow k 2,
        and_digits k n (suc a / 2) q (r / 2) (omega (arith, double_field q k)) (omega arith)
            (omega (arith, pow-suc 2 k)),
      ))

-- A mask of `k` ones keeps the remainder by `2 ^ k`.
pub bit_and_mod : (k a : ℕ) → bit_and a (2 ^ k - 1) ≡ a % 2 ^ k
bit_and_mod k a = omega (
  arith,
  one-le-pow k 2,
  bit_and-bitwise a (2 ^ k - 1),
  and_digits k a a (a / 2 ^ k) (a % 2 ^ k) (grind arith) (omega arith)
      (grind (arith, one-le-pow k 2)),
)
