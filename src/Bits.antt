-- ===== src/Bits.antt =====
-- The binary digits of a number, and what `&`, `|`, `^`, `&^`, `<<` and `>>` do to them.
mod Step
pub mod Word
pub mod Bytes
use Step.{bit_and_step, bit_or_step, bit_xor_step}
use Prim.Native.Nat.{differ}
use ipbus.Common.{ℕ, zero, suc, ◌+◌, ◌*◌, ◌/◌, ◌%◌, ◌≤◌, ◌<◌, ◌≡◌, refl, arith}
use ipbus.Common.{min, max, bit_and, bit_or, bit_xor, ap, ◌∙◌, ◌⊎◌, inl, inr}

-- Digit `i` of `x`, counted from the lowest.
pub bit : ℕ → ℕ → ℕ
bit x zero = x % 2
bit x (suc i) = bit (x / 2) i

pub bit-lt-two : (x i : ℕ) → bit x i < 2
unfolding bit
bit-lt-two x zero = omega arith
bit-lt-two x (suc i) = bit-lt-two (x / 2) i

digit_cases : (n : ℕ) → n < 2 → (n ≡ 0) ⊎ (n ≡ 1)
digit_cases zero h = inl refl
digit_cases (suc zero) h = inr refl
digit_cases (suc (suc n)) h = absurd (omega arith)

pub bit-cases : (x i : ℕ) → (bit x i ≡ 0) ⊎ (bit x i ≡ 1)
bit-cases x i = digit_cases (bit x i) (bit-lt-two x i)

pub zero-bit : (i : ℕ) → bit 0 i ≡ 0
unfolding bit
zero-bit zero = refl
zero-bit (suc i) = zero-bit i

-- Numbers with the same digits are equal.
bits_ext_below : (n a b : ℕ) → a ≤ n → b ≤ n → ((i : ℕ) → bit a i ≡ bit b i) → a ≡ b
unfolding bit
bits_ext_below zero a b p q h = omega arith
bits_ext_below (suc n) a b p q h =
    omega
      (arith, h 0, bits_ext_below n (a / 2) (b / 2) (omega arith) (omega arith) (λ i. h (suc i)))

pub bits_ext : (a b : ℕ) → ((i : ℕ) → bit a i ≡ bit b i) → a ≡ b
bits_ext a b h = bits_ext_below (a + b) a b (omega arith) (omega arith) h

pub bit-bit_and : (a b i : ℕ) → bit (bit_and a b) i ≡ min (bit a i) (bit b i)
unfolding bit
bit-bit_and a b zero = omega (arith, bit_and_step a b)
bit-bit_and a b (suc i) =
    ap (λ t. bit t i) (omega (arith, bit_and_step a b)) ∙ bit-bit_and (a / 2) (b / 2) i

pub bit-bit_or : (a b i : ℕ) → bit (bit_or a b) i ≡ max (bit a i) (bit b i)
unfolding bit
bit-bit_or a b zero = omega (arith, bit_or_step a b)
bit-bit_or a b (suc i) =
    ap (λ t. bit t i) (omega (arith, bit_or_step a b)) ∙ bit-bit_or (a / 2) (b / 2) i

pub bit-bit_xor : (a b i : ℕ) → bit (bit_xor a b) i ≡ (bit a i + bit b i) % 2
unfolding bit
bit-bit_xor a b zero = omega (arith, bit_xor_step a b)
bit-bit_xor a b (suc i) =
    ap (λ t. bit t i) (omega (arith, bit_xor_step a b)) ∙ bit-bit_xor (a / 2) (b / 2) i

pub bit_and_comm : (a b : ℕ) → bit_and a b ≡ bit_and b a
bit_and_comm a b = bits_ext _ _ (λ i. omega (arith, bit-bit_and a b i, bit-bit_and b a i))

pub bit_or_comm : (a b : ℕ) → bit_or a b ≡ bit_or b a
bit_or_comm a b = bits_ext _ _ (λ i. omega (arith, bit-bit_or a b i, bit-bit_or b a i))
