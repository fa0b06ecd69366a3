-- ===== src/Target/Masked.antt =====
-- `Target.MaskedWrite` beside `Register.WriteMask`.
mod Tests
use Prim.Native.String.{String}
use native.Mathlib.Decide.{dec_lt}
use ipbus.Common.{
  ℕ, ◌+◌, ◌-◌, ◌<◌, ◌≡◌, ◌↔◌, refl, sym, ap, ap₂, ◌∙◌, List, [], ◌∷◌, Option, none, some, get_or,
  arith, bit_and, bit_or, bit_xor, u32, ◌<<<◌, IsU32, max, min,
}
use ipbus.Protocol.{Error}
use ipbus.Bits.{bit, bit-bit_and, bit-bit_or, bit-bit_xor, bit-lt-two, bits_ext}
use ipbus.Bits.Word.{bit-lt-pow, ones-bit}
use ipbus.Register.{Msk, Register, lookup_mask, write_mask, write_with, and_not}
use ipbus.Register.Masks.{rmw}
use ipbus.Packet.{Chan}
use ipbus.Target.{UsrRequest}
use ipbus.Target.Calls.{masked_write, masked_terms, request_of_terms, rmwbits_request}

-- On uint32, `0xffffffff ^ m` is `0xffffffff &^ m`.
xor_not : (m : ℕ) → IsU32 m → bit_xor 0xffffffff m ≡ and_not 0xffffffff m
xor_not m h = bits_ext _ _ (λ i. elim (dec_lt i 32) [
  | yes below ↦ omega (
    arith,
    bit-bit_and 0xffffffff (bit_xor 0xffffffff m) i,
    ones-bit 32 i below,
    bit-lt-two (bit_xor 0xffffffff m) i,
  )
  | no above ↦ omega (
    arith,
    bit-bit_and 0xffffffff (bit_xor 0xffffffff m) i,
    bit-bit_xor 0xffffffff m i,
    bit-lt-pow 0xffffffff 32 i (omega arith) (omega arith),
    bit-lt-pow m 32 i h (omega arith),
  )
])

-- The second term of a request.
abbrev orterm_of : Option UsrRequest × Option Error → ℕ
orterm_of (none, e) = 0
orterm_of (some r, e) = get_or r.input 1 0

-- Where the register has the mask, `MaskedWrite` queues the read-modify-write with the two terms of
-- `WriteMask` exactly if the shifted value lies within the mask: it does not cut off, as `WriteMask`
-- does, the digits of the value that the mask does not have.
pub masked_write-write_mask :
    (reg : Register) (mask : String) (m : Msk) (v : ℕ) (resp : Chan)
    → lookup_mask mask reg.msks ≡ some m
    → IsU32 m.value
    → let (andterm, orterm, _) = write_mask reg mask v in
      (masked_write reg mask v resp ≡ (some (rmwbits_request reg andterm orterm resp), none))
      ↔ (bit_and (u32 (v <<< m.shift)) m.value ≡ u32 (v <<< m.shift))
unfolding masked_write write_mask rmwbits_request
masked_write-write_mask reg mask m v resp found h =
    rw (found, write_with, masked_terms, request_of_terms)
      (
        λ e. sym (ap orterm_of e),
        λ e. ap₂ (λ a o. (some (rmwbits_request reg a o resp), none)) (xor_not m.value h) (sym e),
      )

-- What the hardware makes of a register value `x` by the terms of `MaskedWrite`: a digit outside the
-- mask that the shifted value has is set, and the others outside the mask stay.
pub masked_write-outside :
    (reg : Register) (mask : String) (m : Msk) (v x i : ℕ) (resp : Chan)
    → lookup_mask mask reg.msks ≡ some m
    → i < 32
    → bit m.value i ≡ 0
    → (andterm orterm : ℕ) × (masked_write reg mask v resp
        ≡ (some (rmwbits_request reg andterm orterm resp), none))
      × (bit (rmw x andterm orterm) i ≡ max (bit x i) (bit (u32 (v <<< m.shift)) i))
unfolding masked_write
masked_write-outside reg mask m v x i resp found l clear = (
  bit_xor 0xffffffff m.value,
  u32 (v <<< m.shift),
  rw (found, masked_terms, request_of_terms) refl,
  omega (
    arith,
    bit-bit_or (bit_and x (bit_xor 0xffffffff m.value)) (u32 (v <<< m.shift)) i,
    bit-bit_and x (bit_xor 0xffffffff m.value) i,
    bit-bit_xor 0xffffffff m.value i,
    ones-bit 32 i l,
    bit-lt-two x i,
    bit-lt-two (u32 (v <<< m.shift)) i,
  ),
)
