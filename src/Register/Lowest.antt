-- ===== src/Register/Lowest.antt =====
-- The shift that `newmask` finds.
use Prim.Native.String.{String}
use native.Mathlib.Nat.{pow-le-pow_right, mod-eq_of_lt, one-le-pow}
use ipbus.Common.{
  ℕ, zero, suc, ◌+◌, ◌*◌, ◌/◌, ◌^◌, ◌<◌, ◌≡◌, ◌⊎◌, inl, inr, refl, sym, true, false, IsU32, arith,
  ltb, bit_and, u32, ◌<<<◌, ap, ◌∙◌, Bool-cases,
}
use ipbus.Bits.{bit, bit-cases, bit_and_comm, bits_ext, zero-bit}
use ipbus.Bits.Word.{bit_and_mask, bit_and_high, bit-eq-div, bit-lt-pow}
use ipbus.Register.{first_set, newmask}

-- A shifted one stays below `2 ^ 32`.
one_shift : (i : ℕ) → i < 32 → u32 (1 <<< i) ≡ 1 * 2 ^ i
one_shift i h =
    mod-eq_of_lt
      (omega (arith, pow-le-pow_right {n = 2} (omega arith) {i = i} {j = 31} (omega arith)))

-- The test of a round asks for digit `i` of the mask.
test_digit : (i value : ℕ) → i < 32 → bit_and (u32 (1 <<< i)) value ≡ bit value i * 2 ^ i
test_digit i value h =
    ap (λ t. bit_and t value) (one_shift i h)
    ∙ bit_and_comm (1 * 2 ^ i) value
    ∙ bit_and_high i value 1
    ∙ ap (λ t. t * 2 ^ i) (bit_and_mask 1 (value / 2 ^ i) ∙ sym (bit-eq-div value i))

digit_found :
    (i value : ℕ) → i < 32 → ltb 0 (bit_and (u32 (1 <<< i)) value) ≡ true → bit value i ≡ 1
digit_found i value h found = elim (bit-cases value i) [
  | inl z ↦ absurd (absurd_zero (test_digit i value h ∙ ap (λ t. t * 2 ^ i) z) found)
  | inr one ↦ one
]
  where
    absurd_zero : {t : ℕ} → t ≡ 0 * 2 ^ i → ltb 0 t ≡ true → ⊥
    absurd_zero e f = ground arith

clear_above :
    (i value : ℕ)
    → i < 32
    → ltb 0 (bit_and (u32 (1 <<< i)) value) ≡ false
    → ((j : ℕ) → j < i → bit value j ≡ 0)
    → (j : ℕ) → j < i + 1
    → bit value j ≡ 0
clear_above i value h clear below j p = elim (bit-cases value i) [
  | inl z ↦ ground (arith, below j)
  | inr one ↦ absurd (absurd_one (test_digit i value h ∙ ap (λ t. t * 2 ^ i) one) clear)
]
  where
    absurd_one : {t : ℕ} → t ≡ 1 * 2 ^ i → ltb 0 t ≡ false → ⊥
    absurd_one e f = ground (arith, one-le-pow i 2)

-- A uint32 with no digit set is 0.
no_digits : (value : ℕ) → IsU32 value → ((j : ℕ) → j < 32 → bit value j ≡ 0) → value ≡ 0
no_digits value h none_set =
    bits_ext value 0 (λ j. ground (arith, none_set j, bit-lt-pow value 32 j, zero-bit j))

-- `s` is the place of the lowest digit of `value` that is 1.
pub record IsLowest (value s : ℕ) : Type 0 where
  pub in_word : s < 32
  pub is_set : bit value s ≡ 1
  pub clear_below : (j : ℕ) → j < s → bit value j ≡ 0

abbrev Found : ℕ → ℕ → Type 0
Found value s = IsLowest value s ⊎ ((s ≡ 0) × ((j : ℕ) → j < 32 → bit value j ≡ 0))

-- The digits below `i` are known to be zero.
first_set_lem :
    (n i value : ℕ)
    → i + n ≡ 32
    → ((j : ℕ) → j < i → bit value j ≡ 0)
    → Found value (first_set n i value)
unfolding first_set
first_set_lem zero i value e h = inr (refl, λ j p. h j (omega arith))
first_set_lem (suc n) i value e h = elim (Bool-cases (ltb 0 (bit_and (u32 (1 <<< i)) value))) [
  | inl found ↦ rw found (
      inl (record {
        in_word = omega arith;
        is_set = digit_found i value (omega arith) found;
        clear_below = h;
      }))
  | inr clear ↦
      rw clear
        (first_set_lem n (i + 1) value (omega arith) (clear_above i value (omega arith) clear h))
]

-- `newmask` keeps the name and the value of a uint32 mask. Its shift is the place of the lowest
-- digit that is 1, or 0 where the value is 0.
pub newmask_lem :
    (name : String) (value : ℕ)
    → IsU32 value
    → let m = newmask name value in
      (m.name ≡ name) × (m.value ≡ value) × (IsLowest value m.shift ⊎ ((value ≡ 0) × (m.shift ≡ 0)))
unfolding newmask
newmask_lem name value h =
    (refl, refl, by_place (first_set_lem 32 0 value refl (λ j p. absurd (omega arith))))
  where
    by_place :
        Found value (first_set 32 0 value)
        → IsLowest value (first_set 32 0 value) ⊎ ((value ≡ 0) × (first_set 32 0 value ≡ 0))
    by_place (inl l) = inl l
    by_place (inr (z, none_set)) = inr (no_digits value h none_set, z)
