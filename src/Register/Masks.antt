-- ===== src/Register/Masks.antt =====
-- A masked write to a register followed by a masked read.
use Prim.Native.String.{String}
use ipbus.Common.{
  ℕ, ◌+◌, ◌-◌, ◌<◌, ◌≡◌, min, max, none, some, arith, refl, ap, bit_and, bit_or, bit_xor, u32,
  ◌<<<◌, ◌>>>◌, IsU32,
}
use native.Mathlib.Decide.{dec_lt}
use ipbus.Bits.{bit, bit-bit_and, bit-bit_or, bit-bit_xor, bit-lt-two, bits_ext}
use ipbus.Bits.Word.{bit-mul-pow, bit-mod-pow, bit-div-pow, bit-lt-pow, ones-bit}
use ipbus.Register.{
  Msk, Register, lookup_mask, read_mask, read_with, write_mask, write_with, and_not,
}

-- What the hardware makes of `x` in a read-modify-write by the two terms, as the comment on
-- `Target.RMWbits` states it: `(x & andterm) | orterm`.
abbrev pub rmw : ℕ → ℕ → ℕ → ℕ
rmw x andterm orterm = bit_or (bit_and x andterm) orterm

-- The digits of the register after the write: the value's where the mask is 1, else the old ones.
write_digit :
    (m w x i : ℕ)
    → i < 32
    → bit (rmw x (and_not 0xffffffff m) (bit_and w m)) i
      ≡ max (min (bit x i) (1 - bit m i)) (min (bit w i) (bit m i))
write_digit m w x i h = omega (
  arith,
  bit-bit_or (bit_and x (and_not 0xffffffff m)) (bit_and w m) i,
  bit-bit_and x (and_not 0xffffffff m) i,
  bit-bit_and 0xffffffff (bit_xor 0xffffffff m) i,
  bit-bit_xor 0xffffffff m i,
  bit-bit_and w m i,
  ones-bit 32 i h,
  bit-lt-two m i,
)

-- What the masked read of the written register sees of digit `i`.
read_digit :
    (m s v x i : ℕ)
    → IsU32 m
    → bit (bit_and (rmw x (and_not 0xffffffff m) (bit_and (u32 (v <<< s)) m)) m >>> s) i
      ≡ bit (bit_and v (m >>> s)) i
read_digit m s v x i hm = elim (dec_lt (s + i) 32) [
  | yes below ↦ omega (
    arith,
    bit-div-pow (bit_and y m) s i (s + i) (omega arith),
    bit-bit_and y m (s + i),
    write_digit m (u32 (v <<< s)) x (s + i) below,
    bit-mod-pow (v <<< s) 32 (s + i) below,
    bit-mul-pow v s i (s + i) (omega arith),
    bit-bit_and v (m >>> s) i,
    bit-div-pow m s i (s + i) (omega arith),
    bit-lt-two m (s + i),
    bit-lt-two v i,
    bit-lt-two x (s + i),
  )
  | no above ↦ omega (
    arith,
    bit-div-pow (bit_and y m) s i (s + i) (omega arith),
    bit-bit_and y m (s + i),
    bit-bit_and v (m >>> s) i,
    bit-div-pow m s i (s + i) (omega arith),
    bit-lt-pow m 32 (s + i) hm (omega arith),
  )
]
  where
    y : ℕ
    y = rmw x (and_not 0xffffffff m) (bit_and (u32 (v <<< s)) m)

-- The digits outside the mask keep what they were.
outside_digit :
    (m w x i : ℕ)
    → IsU32 m
    → bit (and_not (rmw x (and_not 0xffffffff m) (bit_and w m)) m) i ≡ bit (and_not x m) i
outside_digit m w x i hm = elim (dec_lt i 32) [
  | yes below ↦ omega (
    arith,
    bit-bit_and y (bit_xor 0xffffffff m) i,
    bit-bit_and x (bit_xor 0xffffffff m) i,
    bit-bit_xor 0xffffffff m i,
    write_digit m w x i below,
    ones-bit 32 i below,
    bit-lt-two m i,
    bit-lt-two w i,
    bit-lt-two x i,
  )
  | no above ↦ omega (
    arith,
    bit-bit_and y (bit_xor 0xffffffff m) i,
    bit-bit_and x (bit_xor 0xffffffff m) i,
    bit-bit_xor 0xffffffff m i,
    bit-lt-pow 0xffffffff 32 i (omega arith) (omega arith),
    bit-lt-pow m 32 i hm (omega arith),
  )
]
  where
    y : ℕ
    y = rmw x (and_not 0xffffffff m) (bit_and w m)

-- The two terms of `WriteMask`, applied by the hardware to any register value `x`, write the
-- masked field and nothing else: `ReadMask` then returns the value's digits that the shifted mask
-- has, and the register agrees with `x` outside the mask. So a value that lies within the shifted
-- mask is read back unchanged. Neither call returns an error where the register has the mask.
pub read_mask-write_mask :
    (r : Register) (mask : String) (m : Msk) (v x : ℕ)
    → lookup_mask mask r.msks ≡ some m
    → IsU32 m.value
    → let (andterm, orterm, e) = write_mask r mask v in
      let y = rmw x andterm orterm in
      (e ≡ none)
      × (read_mask r mask y ≡ (bit_and v (m.value >>> m.shift), none))
      × (and_not y m.value ≡ and_not x m.value)
unfolding read_mask write_mask
read_mask-write_mask r mask m v x found hm =
    rw (found, read_with, write_with)
      (
        refl,
        ap (λ t. (t, none)) (bits_ext _ _ (λ i. read_digit m.value m.shift v x i hm)),
        bits_ext _ _ (λ i. outside_digit m.value (u32 (v <<< m.shift)) x i hm),
      )
