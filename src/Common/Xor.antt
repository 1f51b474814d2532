-- ===== src/Common/Xor.antt =====
-- Cancellation of exclusive or, for numbers of any width.
use Prim.Native.Nat.{
  ℕ, zero, suc, ◌+◌, ◌*◌, ◌/◌, ◌%◌, ◌^◌, ◌≤◌, ◌<◌, bit_xor, differ, digits, bit_xor-bitwise,
}
use mathlib.Core.Path.{◌≡◌, refl}
use native.Mathlib.Nat.{pow-suc}
use native.Mathlib.Omega.{arith}

abbrev xor_digits : ℕ → ℕ → ℕ → ℕ
xor_digits n a b = digits (λ b. b) differ n a b

differ-mod : (a b : ℕ) → a < 2 → b < 2 → differ a b ≡ (a + b) % 2
differ-mod zero b h k = omega arith
differ-mod (suc zero) zero h k = omega arith
differ-mod (suc zero) (suc zero) h k = omega arith
differ-mod (suc zero) (suc (suc b)) h k = absurd (omega arith)
differ-mod (suc (suc a)) b h k = absurd (omega arith)

xor_digits_fuel : (n m a b : ℕ) → a ≤ n → a ≤ m → xor_digits n a b ≡ xor_digits m a b
xor_digits_fuel zero zero a b p q = refl
xor_digits_fuel zero (suc m) zero b p q = refl
xor_digits_fuel zero (suc m) (suc a) b p q = absurd (omega arith)
xor_digits_fuel (suc n) zero zero b p q = refl
xor_digits_fuel (suc n) zero (suc a) b p q = absurd (omega arith)
xor_digits_fuel (suc n) (suc m) zero b p q = refl
xor_digits_fuel (suc n) (suc m) (suc a) b p q =
    omega (arith, xor_digits_fuel n m (suc a / 2) (b / 2) (omega arith) (omega arith))

pub zero-bit_xor : (b : ℕ) → bit_xor 0 b ≡ b
zero-bit_xor b = bit_xor-bitwise 0 b

bit_xor_step : (a b : ℕ) → bit_xor a b ≡ bit_xor (a / 2) (b / 2) * 2 + (a % 2 + b % 2) % 2
bit_xor_step zero b = omega (arith, zero-bit_xor b, zero-bit_xor (b / 2))
bit_xor_step (suc a) b = omega (
  arith,
  bit_xor-bitwise (suc a) b,
  bit_xor-bitwise (suc a / 2) (b / 2),
  differ-mod (suc a % 2) (b % 2) (omega arith) (omega arith),
  xor_digits_fuel a (suc a / 2) (suc a / 2) (b / 2) (omega arith) (omega arith),
)

-- Numbers that agree after an exclusive or with the same number are equal.
xor-cancel_right : (n a b x : ℕ) → a ≤ n → b ≤ n → bit_xor a x ≡ bit_xor b x → a ≡ b
xor-cancel_right zero a b x p q h = omega arith
xor-cancel_right (suc n) a b x p q h =
    let halves : bit_xor (a / 2) (x / 2) ≡ bit_xor (b / 2) (x / 2) =
      omega (arith, bit_xor_step a x, bit_xor_step b x) in
    omega (
      arith,
      bit_xor_step a x,
      bit_xor_step b x,
      xor-cancel_right n (a / 2) (b / 2) (x / 2) (omega arith) (omega arith) halves,
    )

xor-cancel_left : (n a b x : ℕ) → a ≤ n → b ≤ n → bit_xor x a ≡ bit_xor x b → a ≡ b
xor-cancel_left zero a b x p q h = omega arith
xor-cancel_left (suc n) a b x p q h =
    let halves : bit_xor (x / 2) (a / 2) ≡ bit_xor (x / 2) (b / 2) =
      omega (arith, bit_xor_step x a, bit_xor_step x b) in
    omega (
      arith,
      bit_xor_step x a,
      bit_xor_step x b,
      xor-cancel_left n (a / 2) (b / 2) (x / 2) (omega arith) (omega arith) halves,
    )

-- The result needs no more digits than the two numbers.
pub bit_xor-lt : (k a b : ℕ) → a < 2 ^ k → b < 2 ^ k → bit_xor a b < 2 ^ k
bit_xor-lt zero zero b p q = omega (arith, zero-bit_xor b)
bit_xor-lt zero (suc a) b p q = absurd (omega arith)
bit_xor-lt (suc k) a b p q =
    let p' : a < 2 ^ k * 2 = rw (← pow-suc 2 k) p in
    let q' : b < 2 ^ k * 2 = rw (← pow-suc 2 k) q in
    rw (pow-suc 2 k)
      (omega (arith, bit_xor_step a b, bit_xor-lt k (a / 2) (b / 2) (omega arith) (omega arith)))

pub bit_xor-injective_right : (a b x : ℕ) → bit_xor a x ≡ bit_xor b x → a ≡ b
bit_xor-injective_right a b x h = xor-cancel_right (a + b) a b x (omega arith) (omega arith) h

pub bit_xor-injective_left : (a b x : ℕ) → bit_xor x a ≡ bit_xor x b → a ≡ b
bit_xor-injective_left a b x h = xor-cancel_left (a + b) a b x (omega arith) (omega arith) h
