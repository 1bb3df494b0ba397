-- ===== src/PageAlloc/Xor.antt =====
-- The frame number of a buddy, `phys ^ (1 << (PAGE_SHIFT + order))` (src/kernel/mm/page_alloc.c).
use Prim.Native.Nat.{bit_xor, bit_xor-bitwise, digits, differ}
use native.Mathlib.Numerals.{towards_suc}
use native.Mathlib.Decide.{dec_lt}
use native.Mathlib.Nat.{mul_assoc, pow-suc, add-mul, one-mul}
use cosmo_rt.Common.{
  ℕ, zero, suc, ◌+◌, ◌-◌, ◌*◌, ◌/◌, ◌%◌, ◌^◌, ◌≤◌, ◌<◌, ◌≡◌, refl, sym, ap, ap₂, ◌∙◌, arith,
}

abbrev xor_digits : ℕ → ℕ → ℕ → ℕ
xor_digits n a b = digits (λ b. b) differ n a b

xor_digits_fuel : (n m a b : ℕ) → a ≤ n → a ≤ m → xor_digits n a b ≡ xor_digits m a b
xor_digits_fuel zero zero a b p q = refl
xor_digits_fuel zero (suc m) zero b p q = refl
xor_digits_fuel zero (suc m) (suc a) b p q = absurd (omega arith)
xor_digits_fuel (suc n) zero zero b p q = refl
xor_digits_fuel (suc n) zero (suc a) b p q = absurd (omega arith)
xor_digits_fuel (suc n) (suc m) zero b p q = refl
xor_digits_fuel (suc n) (suc m) (suc a) b p q =
    omega (arith, xor_digits_fuel n m (suc a / 2) (b / 2) (omega arith) (omega arith))

zero-bit_xor : (b : ℕ) → bit_xor 0 b ≡ b
zero-bit_xor b = bit_xor-bitwise 0 b

differ-zero : (x : ℕ) → differ x 0 ≡ x
differ-zero zero = refl
differ-zero (suc x) = refl

pub bit_xor_step : (a b : ℕ) → bit_xor a b ≡ bit_xor (a / 2) (b / 2) * 2 + differ (a % 2) (b % 2)
bit_xor_step zero b = omega (arith, zero-bit_xor b, zero-bit_xor (b / 2))
bit_xor_step (suc a) b = omega (
  arith,
  bit_xor-bitwise (suc a) b,
  bit_xor-bitwise (suc a / 2) (b / 2),
  xor_digits_fuel a (suc a / 2) (suc a / 2) (b / 2) (omega arith) (omega arith),
)

bit_xor-zero_fuel : (n a : ℕ) → a ≤ n → bit_xor a 0 ≡ a
bit_xor-zero_fuel n zero h = zero-bit_xor 0
bit_xor-zero_fuel zero (suc a) h = absurd (omega arith)
bit_xor-zero_fuel (suc n) (suc a) h = omega (
  arith,
  bit_xor_step (suc a) 0,
  bit_xor-zero_fuel n (suc a / 2) (omega arith),
  differ-zero (suc a % 2),
)

differ-one : (x : ℕ) → x < 2 → differ x 1 ≡ 1 - x
differ-one zero h = refl
differ-one (suc zero) h = refl
differ-one (suc (suc x)) h = absurd (omega arith)

-- The number with its lowest digit changed.
abbrev pub flip : ℕ → ℕ
flip q = q / 2 * 2 + (1 - q % 2)

bit_xor-one : (q : ℕ) → bit_xor q 1 ≡ flip q
bit_xor-one q = omega (
  arith,
  bit_xor_step q 1,
  bit_xor-zero_fuel (q / 2) (q / 2) (omega arith),
  differ-one (q % 2) (omega arith),
)

pub pow_suc : (o : ℕ) → 2 ^ (o + 1) ≡ 2 ^ o * 2
pow_suc o = simp towards_suc (omega arith)

pub bit_xor_block : (o q : ℕ) → bit_xor (q * 2 ^ o) (2 ^ o) ≡ flip q * 2 ^ o
bit_xor_block zero q =
    let number : q * 1 ≡ q = omega arith in
    let result : flip q * 1 ≡ flip q = omega arith in rw (number, result) (bit_xor-one q)
bit_xor_block (suc o) q =
    let p = 2 ^ o in
    let power : 2 ^ suc o ≡ p * 2 = pow-suc 2 o in
    let number : q * 2 ^ suc o ≡ q * p * 2 = rw power (sym (mul_assoc q p 2)) in
    let result : flip q * 2 ^ suc o ≡ flip q * p * 2 = rw power (sym (mul_assoc (flip q) p 2)) in
    let number_half : q * p * 2 / 2 ≡ q * p = omega arith in
    let power_half : p * 2 / 2 ≡ p = omega arith in
    let low : q * p * 2 % 2 ≡ 0 = omega arith in
    let power_low : p * 2 % 2 ≡ 0 = omega arith in
    let high : bit_xor (q * p * 2 / 2) (p * 2 / 2) ≡ flip q * p =
      rw (number_half, power_half) (bit_xor_block o q) in
    let digits : differ (q * p * 2 % 2) (p * 2 % 2) ≡ 0 = rw (low, power_low) refl in
    ap₂ bit_xor number power
    ∙ (omega (arith, bit_xor_step (q * p * 2) (p * 2), high, digits) ∙ sym result)

-- A block of the order `o` at a multiple of 2 ^ `o` and its buddy are the lower and the upper half of
-- a block of the next order, in one order or the other.
pub data Halves (o pfn bud : ℕ) : Type 0 where
  lower : (m : ℕ) → pfn ≡ m * 2 ^ (o + 1) → bud ≡ pfn + 2 ^ o → Halves o pfn bud
  upper : (m : ℕ) → bud ≡ m * 2 ^ (o + 1) → pfn ≡ bud + 2 ^ o → Halves o pfn bud

pub two_pow_pos : (o : ℕ) → 0 < 2 ^ o
two_pow_pos zero = omega arith
two_pow_pos (suc o) = omega (arith, two_pow_pos o, pow-suc 2 o)

pub twice_block : (o m : ℕ) → m * 2 * 2 ^ o ≡ m * 2 ^ (o + 1)
twice_block o m = mul_assoc m 2 (2 ^ o) ∙ ap (λ k. m * k) (omega (arith, pow_suc o))

pub next_block : (o m : ℕ) → (m * 2 + 1) * 2 ^ o ≡ m * 2 ^ (o + 1) + 2 ^ o
next_block o m = omega (arith, add-mul (m * 2) 1 (2 ^ o), one-mul (2 ^ o), twice_block o m)

pub bit_xor-Halves : (o q : ℕ) → Halves o (q * 2 ^ o) (bit_xor (q * 2 ^ o) (2 ^ o))
bit_xor-Halves o q = elim (dec_lt (q % 2) 1) [
  | yes even ↦
      let number : q ≡ q / 2 * 2 = omega arith in
      let other : flip q ≡ q / 2 * 2 + 1 = omega arith in
      let low : q * 2 ^ o ≡ q / 2 * 2 ^ (o + 1) =
        ap (λ k. k * 2 ^ o) number ∙ twice_block o (q / 2) in
      lower (q / 2) low (
        bit_xor_block o q
        ∙ (ap (λ k. k * 2 ^ o) other ∙ (next_block o (q / 2) ∙ ap (λ k. k + 2 ^ o) (sym low))))
  | no odd ↦
      let number : q ≡ q / 2 * 2 + 1 = omega arith in
      let other : flip q ≡ q / 2 * 2 = omega arith in
      let low : bit_xor (q * 2 ^ o) (2 ^ o) ≡ q / 2 * 2 ^ (o + 1) =
        bit_xor_block o q ∙ (ap (λ k. k * 2 ^ o) other ∙ twice_block o (q / 2)) in
      upper (q / 2) low
        (ap (λ k. k * 2 ^ o) number ∙ (next_block o (q / 2) ∙ ap (λ k. k + 2 ^ o) (sym low)))
]
