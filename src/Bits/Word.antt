-- ===== src/Bits/Word.antt =====
-- Masks, shifts and joined fields as arithmetic, at every width.
use native.Mathlib.Nat.{pow-suc, one-le-pow, div-div-eq-div-mul, div-add-mod, mod-lt, mod-eq_of_lt}
use native.Mathlib.Nat.{add-mul-mod_self_right}
use ipbus.Common.{ℕ, zero, suc, ◌+◌, ◌-◌, ◌*◌, ◌/◌, ◌%◌, ◌^◌, ◌≤◌, ◌<◌, ◌≡◌, refl, sym, arith}
use ipbus.Common.{ap, ap₂, ◌∙◌, bit_and, bit_or}
use ipbus.Bits.Step.{bit_and_step, bit_or_step}
use ipbus.Bits.{bit, zero-bit, bits_ext, bit-bit_and, bit-bit_or}

double_pow : (x k : ℕ) → x * 2 ^ suc k ≡ 2 * (x * 2 ^ k)
double_pow x k = omega (arith, ap (λ (t : ℕ). x * t) (pow-suc 2 k))

bit_congr : (a b i j : ℕ) → a ≡ b → i ≡ j → bit a i ≡ bit b j
bit_congr a b i j p q = ap₂ bit p q

-- A left shift moves the digits up and puts zeros below.
pub bit-mul-pow : (x k i j : ℕ) → j ≡ k + i → bit (x * 2 ^ k) j ≡ bit x i
unfolding bit
bit-mul-pow x zero i j e = bit_congr (x * 2 ^ 0) x j i (omega arith) (omega arith)
bit-mul-pow x (suc k) i zero e = absurd (omega arith)
bit-mul-pow x (suc k) i (suc j) e =
    ap (λ t. bit t j) (omega (arith, double_pow x k)) ∙ bit-mul-pow x k i j (omega arith)

pub bit-mul-pow_below : (x k i : ℕ) → i < k → bit (x * 2 ^ k) i ≡ 0
unfolding bit
bit-mul-pow_below x zero i h = absurd (omega arith)
bit-mul-pow_below x (suc k) zero h = omega (arith, double_pow x k)
bit-mul-pow_below x (suc k) (suc i) h =
    ap (λ t. bit t i) (omega (arith, double_pow x k)) ∙ bit-mul-pow_below x k i (omega arith)

-- A right shift drops the lowest digits.
half_div_pow : (x k : ℕ) → x / 2 ^ suc k ≡ x / 2 / 2 ^ k
half_div_pow x k =
    omega (arith, pow-suc 2 k, div-div-eq-div-mul x 2 (2 ^ k), ap (λ (t : ℕ). x / t) e)
  where
    e : 2 * 2 ^ k ≡ 2 ^ suc k
    e = omega (arith, pow-suc 2 k)

pub bit-div-pow : (x k i j : ℕ) → j ≡ k + i → bit (x / 2 ^ k) i ≡ bit x j
unfolding bit
bit-div-pow x zero i j e = bit_congr (x / 2 ^ 0) x i j (omega arith) (omega arith)
bit-div-pow x (suc k) i zero e = absurd (omega arith)
bit-div-pow x (suc k) i (suc j) e =
    ap (λ t. bit t i) (half_div_pow x k) ∙ bit-div-pow (x / 2) k i j (omega arith)

pub bit-eq-div : (x i : ℕ) → bit x i ≡ x / 2 ^ i % 2
unfolding bit
bit-eq-div x i = sym (bit-div-pow x i 0 i (omega arith))

mod_unique : (a q p r : ℕ) → r < p → a ≡ r + q * p → a % p ≡ r
mod_unique a q p r h e = rw e (add-mul-mod_self_right r q p ∙ mod-eq_of_lt h)

half_mod_double :
    (x p m q : ℕ) → 0 < p → m ≡ 2 * p → q ≡ x / m → (x % m % 2 ≡ x % 2) × (x / 2 % p ≡ x % m / 2)
half_mod_double x p m q h e d = (
  omega (arith, split),
  mod_unique (x / 2) q p (x % m / 2) (omega (arith, mod-lt x {m = m})) (omega (arith, split)),
)
  where
    split : x ≡ x % m + 2 * (q * p)
    split = omega (arith, div-add-mod x m, ap (λ (t : ℕ). q * t) e, ap (λ (t : ℕ). t * m) d)

half_mod_pow : (x k : ℕ) → (x % 2 ^ suc k % 2 ≡ x % 2) × (x / 2 % 2 ^ k ≡ x % 2 ^ suc k / 2)
half_mod_pow x k =
    half_mod_double x (2 ^ k) (2 ^ suc k) (x / 2 ^ suc k) (one-le-pow k 2 (omega arith))
      (omega (arith, pow-suc 2 k)) refl

pub bit-mod-pow : (x k i : ℕ) → i < k → bit (x % 2 ^ k) i ≡ bit x i
unfolding bit
bit-mod-pow x zero i h = absurd (omega arith)
bit-mod-pow x (suc k) zero h = (half_mod_pow x k).0
bit-mod-pow x (suc k) (suc i) h =
    ap (λ t. bit t i) (sym (half_mod_pow x k).1) ∙ bit-mod-pow (x / 2) k i (omega arith)

-- A number below `2 ^ k` has no digit from `k` on.
pub bit-lt-pow : (x k i : ℕ) → x < 2 ^ k → k ≤ i → bit x i ≡ 0
unfolding bit
bit-lt-pow x zero i h p = ap (λ t. bit t i) (omega arith) ∙ zero-bit i
bit-lt-pow x (suc k) zero h p = absurd (omega arith)
bit-lt-pow x (suc k) (suc i) h p = bit-lt-pow (x / 2) k i (omega (arith, pow-suc 2 k)) (omega arith)

bit_and_zero : (a : ℕ) → bit_and a 0 ≡ 0
bit_and_zero a = bits_ext _ _ (λ i. omega (arith, bit-bit_and a 0 i, zero-bit i))

bit_or_zero : (a : ℕ) → bit_or a 0 ≡ a
bit_or_zero a = bits_ext _ _ (λ i. omega (arith, bit-bit_or a 0 i, zero-bit i))

-- A mask of `k` ones leaves the remainder by `2 ^ k`.
pub bit_and_mask : (k a : ℕ) → bit_and a (2 ^ k - 1) ≡ a % 2 ^ k
bit_and_mask zero a = omega (arith, bit_and_zero a)
bit_and_mask (suc k) a = omega (
  arith,
  bit_and_step a (2 ^ suc k - 1),
  ap (bit_and (a / 2)) {x = (2 ^ suc k - 1) / 2} {y = 2 ^ k - 1} (omega (arith, pow-suc 2 k)),
  bit_and_mask k (a / 2),
  half_mod_pow a k,
  pow-suc 2 k,
  one-le-pow k 2 (omega arith),
)

-- A mask whose ones begin at digit `k` looks at the digits from `k` on.
pub bit_and_high : (k a m : ℕ) → bit_and a (m * 2 ^ k) ≡ bit_and (a / 2 ^ k) m * 2 ^ k
bit_and_high zero a m =
    omega (
      arith,
      ap₂ bit_and {x = a} {y = a / 2 ^ 0} {u = m * 2 ^ 0} {v = m} (omega arith) (omega arith),
    )
bit_and_high (suc k) a m = omega (
  arith,
  bit_and_step a (m * 2 ^ suc k),
  ap (bit_and (a / 2)) {x = m * 2 ^ suc k / 2} {y = m * 2 ^ k} (omega (arith, double_pow m k)),
  bit_and_high k (a / 2) m,
  ap (λ t. bit_and t m * 2 ^ k) (half_div_pow a k),
  double_pow (bit_and (a / 2 ^ suc k) m) k,
  double_pow m k,
)

-- A field shifted up by `k` and a field below `2 ^ k` are joined by `|`.
pub bit_or_fields : (k q r : ℕ) → r < 2 ^ k → bit_or (q * 2 ^ k) r ≡ q * 2 ^ k + r
bit_or_fields zero q r h = omega (
  arith,
  ap₂ bit_or {x = q * 2 ^ 0} {y = q} {u = r} {v = 0} (omega arith) (omega arith),
  bit_or_zero q,
)
bit_or_fields (suc k) q r h = omega (
  arith,
  bit_or_step (q * 2 ^ suc k) r,
  ap (λ t. bit_or t (r / 2)) {x = q * 2 ^ suc k / 2} {y = q * 2 ^ k}
      (omega (arith, double_pow q k)),
  bit_or_fields k q (r / 2) (omega (arith, pow-suc 2 k)),
  double_pow q k,
)

-- The digits of a mask of `k` ones.
pub ones-bit : (k i : ℕ) → i < k → bit (2 ^ k - 1) i ≡ 1
ones-bit zero i h = absurd (omega arith)
ones-bit (suc k) zero h = bit-eq-div (2 ^ suc k - 1) 0 ∙ omega (arith, pow-suc 2 k, one-le-pow k 2)
ones-bit (suc k) (suc i) h =
    bit-eq-div (2 ^ suc k - 1) (suc i)
    ∙ ap (λ t. t % 2) (half_div_pow (2 ^ suc k - 1) i)
    ∙ ap (λ t. t / 2 ^ i % 2) {x = (2 ^ suc k - 1) / 2} {y = 2 ^ k - 1}
        (omega (arith, pow-suc 2 k, one-le-pow k 2))
    ∙ sym (bit-eq-div (2 ^ k - 1) i)
    ∙ ones-bit k i (omega arith)
