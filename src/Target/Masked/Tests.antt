-- ===== src/Target/Masked/Tests.antt =====
-- A masked write of a value that is wider than the mask.
use ipbus.Common.{
  pos, ℕ, ◌≡◌, ◌↔◌, refl, false, [], ◌∷◌, none, some, max, arith, bit_and, u32, ◌<<<◌,
}
use ipbus.Bits.{bit}
use ipbus.Bits.Word.{bit-lt-pow}
use ipbus.Register.{Msk, Register, lookup_mask, write_mask}
use ipbus.Register.Masks.{rmw}
use ipbus.Target.Calls.{masked_write, rmwbits_request}
use ipbus.Target.Masked.{masked_write-write_mask, masked_write-outside}

abbrev nibble : Msk
nibble = record { name = "nibble"; value = 0x0f0; shift = 4 }

abbrev csr : Register
csr = record {
  name = "csr";
  addr = 0x10;
  masks = "nibble" ∷ [];
  noninc = false;
  size = pos 1;
  msks = ("nibble", nibble) ∷ [];
}

nibble_found : lookup_mask "nibble" csr.msks ≡ some nibble
unfolding lookup_mask
nibble_found = refl

masked_write-write_mask_example :
    let (andterm, orterm, _) = write_mask csr "nibble" 0x1f in
    (masked_write csr "nibble" 0x1f 3 ≡ (some (rmwbits_request csr andterm orterm 3), none))
    ↔ (bit_and (u32 (0x1f <<< 4)) 0x0f0 ≡ u32 (0x1f <<< 4))
masked_write-write_mask_example =
    masked_write-write_mask csr "nibble" nibble 0x1f 3 nibble_found (omega arith)

masked_write-outside_example :
    (andterm orterm : ℕ) × (masked_write csr "nibble" 0x1f 3
      ≡ (some (rmwbits_request csr andterm orterm 3), none))
    × (bit (rmw 0 andterm orterm) 8 ≡ max (bit 0 8) (bit (u32 (0x1f <<< 4)) 8))
masked_write-outside_example =
    masked_write-outside csr "nibble" nibble 0x1f 0 8 3 nibble_found (omega arith)
      (bit-lt-pow 0x0f0 8 8 (omega arith) (omega arith))
