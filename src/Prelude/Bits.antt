-- ===== src/Prelude/Bits.antt =====
-- The two bit operations that the id generator uses, as arithmetic: a mask of low ones is a
-- remainder, and a disjoint `|` is a sum.
use Prim.Native.Nat.{
  ℕ, zero, suc, ◌+◌, ◌-◌, ◌*◌, ◌/◌, ◌%◌, ◌^◌, ◌≤◌, ◌<◌, min, max, bit_and, bit_or, digits,
  bit_and-bitwise, bit_or-bitwise,
}
use mathlib.Core.Path.{◌≡◌, refl, ap, ◌≡⟨◌⟩◌, ◌∎}
use native.Mathlib.Nat.{
  pow-suc, mul_assoc, one-le-pow, div-add-mod, mod-lt, mod-eq_of_lt, add-mul-mod_self_right,
}
use native.Mathlib.Omega.{arith}

-- The fuel of `digits` does not matter once it covers the first operand.
module _ (rest : ℕ → ℕ) (op : ℕ → ℕ → ℕ) where
  digits_fuel : (a n m b : ℕ) → a ≤ n → a ≤ m → digits rest op n a b ≡ digits rest op m a b
  digits_fuel zero zero zero b p q = refl
  digits_fuel zero zero (suc m) b p q = refl
  digits_fuel zero (suc n) zero b p q = refl
  digits_fuel zero (suc n) (suc m) b p q = refl
  digits_fuel (suc a) zero m b p q = absurd (omega arith)
  digits_fuel (suc a) (suc n) zero b p q = absurd (omega arith)
  digits_fuel (suc a) (suc n) (suc m) b p q =
      omega (arith, digits_fuel (suc a / 2) n m (b / 2) (omega arith) (omega arith))

pow-pos : (k : ℕ) → 1 ≤ 2 ^ k
pow-pos k = one-le-pow k 2 (omega arith)

bit_or_step : (a b : ℕ) → bit_or a b ≡ bit_or (a / 2) (b / 2) * 2 + max (a % 2) (b % 2)
bit_or_step zero b = omega (arith, bit_or-bitwise 0 b, bit_or-bitwise 0 (b / 2))
bit_or_step (suc a) b = omega (
  arith,
  bit_or-bitwise (suc a) b,
  bit_or-bitwise (suc a / 2) (b / 2),
  digits_fuel (λ c. c) max (suc a / 2) a (suc a / 2) (b / 2) (omega arith) (omega arith),
)

bit_and_low : (a b : ℕ) → bit_and a b ≡ bit_and (a / 2) (b / 2) * 2 + min (a % 2) (b % 2)
bit_and_low zero b = omega (arith, bit_and-bitwise 0 b, bit_and-bitwise 0 (b / 2))
bit_and_low (suc a) b = omega (
  arith,
  bit_and-bitwise (suc a) b,
  bit_and-bitwise (suc a / 2) (b / 2),
  digits_fuel (λ c. 0) min (suc a / 2) a (suc a / 2) (b / 2) (omega arith) (omega arith),
)

bit_or-zero_within : (n a : ℕ) → a ≤ n → bit_or a 0 ≡ a
bit_or-zero_within n zero h = refl
bit_or-zero_within zero (suc a) h = absurd (omega arith)
bit_or-zero_within (suc n) (suc a) h =
    omega (arith, bit_or_step (suc a) 0, bit_or-zero_within n (suc a / 2) (omega arith))

bit_or-double : (x lo : ℕ) → bit_or x (lo / 2) ≡ x + lo / 2 → bit_or (x * 2) lo ≡ x * 2 + lo
bit_or-double x lo h =
    let half : x * 2 / 2 ≡ x = omega arith in
    omega (arith, h, bit_or_step (x * 2) lo, ap (λ t. bit_or t (lo / 2)) half)

-- `(hi << k) | lo` is a sum where `lo` has no digit at `k` or above.
pub bit_or-shift : (k hi lo : ℕ) → lo < 2 ^ k → bit_or (hi * 2 ^ k) lo ≡ hi * 2 ^ k + lo
bit_or-shift zero hi zero h = omega (arith, bit_or-zero_within (hi * 1) (hi * 1) (omega arith))
bit_or-shift zero hi (suc lo) h = absurd (omega arith)
bit_or-shift (suc k) hi lo h =
    rw (pow-suc 2 k, ← mul_assoc hi (2 ^ k) 2)
      (bit_or-double (hi * 2 ^ k) lo (bit_or-shift k hi (lo / 2) (omega (arith, h, pow-suc 2 k))))

bit_and-zero_within : (n a : ℕ) → a ≤ n → bit_and a 0 ≡ 0
bit_and-zero_within n zero h = refl
bit_and-zero_within zero (suc a) h = absurd (omega arith)
bit_and-zero_within (suc n) (suc a) h =
    omega (arith, bit_and_low (suc a) 0, bit_and-zero_within n (suc a / 2) (omega arith))

mod_double : (a p : ℕ) → 1 ≤ p → a % (p * 2) ≡ a / 2 % p * 2 + a % 2
mod_double a p h =
    let r : ℕ = a / 2 % p * 2 + a % 2 in
    let split : a ≡ r + a / 2 / p * (p * 2) = omega (arith, div-add-mod (a / 2) p) in
    a % (p * 2)
    ≡⟨ ap (λ t. t % (p * 2)) split ⟩ (r + a / 2 / p * (p * 2)) % (p * 2)
    ≡⟨ add-mul-mod_self_right r (a / 2 / p) (p * 2) ⟩ r % (p * 2)
    ≡⟨ mod-eq_of_lt (omega (arith, mod-lt (a / 2) {m = p} h)) ⟩ r ∎

-- `a & (2^k - 1)` is the remainder.
pub bit_and-mask : (k a : ℕ) → bit_and a (2 ^ k - 1) ≡ a % 2 ^ k
bit_and-mask zero a = omega (arith, bit_and-zero_within a a (omega arith))
bit_and-mask (suc k) a =
    let ones : (2 ^ suc k - 1) / 2 ≡ 2 ^ k - 1 = omega (arith, pow-suc 2 k, pow-pos k) in
    omega (
      arith,
      bit_and_low a (2 ^ suc k - 1),
      ap (bit_and (a / 2)) ones,
      bit_and-mask k (a / 2),
      pow-suc 2 k,
      pow-pos k,
      mod_double a (2 ^ k) (pow-pos k),
      ap (λ t. a % t) (pow-suc 2 k),
    )
