-- ===== src/Register/Tests.antt =====
-- Runs of the mask functions, and the theorems at a concrete register.
use ipbus.Common.{pos, ℕ, ◌≡◌, refl, false, [], ◌∷◌, none, some, arith, bit_and, ◌>>>◌, ◌⊎◌}
use ipbus.Protocol.{no_mask}
use ipbus.Register.{Msk, Register, first_set, newmask, lookup_mask, read_mask, write_mask, and_not}
use ipbus.Register.Lowest.{IsLowest, newmask_lem}
use ipbus.Register.Masks.{rmw, read_mask-write_mask}

abbrev field : Msk
field = record { name = "field"; value = 0x0ff0; shift = 4 }

abbrev csr : Register
csr = record {
  name = "csr";
  addr = 0x10;
  masks = "field" ∷ [];
  noninc = false;
  size = pos 1;
  msks = ("field", field) ∷ [];
}

newmask_runs : newmask "field" 0x0ff0 ≡ field
unfolding newmask first_set
newmask_runs = refl

masks_run :
    (read_mask csr "field" 0xabcd ≡ (0xbc, none))
    × (write_mask csr "field" 0x112 ≡ (0xfffff00f, 0x120, none))
    × (read_mask csr "other" 0xabcd ≡ (0, some no_mask))
unfolding read_mask write_mask lookup_mask
masks_run = (refl, refl, refl)

field_found : lookup_mask "field" csr.msks ≡ some field
unfolding lookup_mask
field_found = refl

newmask_lem_example :
    let m = newmask "field" 0x0ff0 in
    (m.name ≡ "field")
    × (m.value ≡ 0x0ff0)
    × (IsLowest 0x0ff0 m.shift ⊎ (◌≡◌ {A = ℕ} 0x0ff0 0 × (m.shift ≡ 0)))
newmask_lem_example = newmask_lem "field" 0x0ff0 (omega arith)

read_mask-write_mask_example :
    let (andterm, orterm, e) = write_mask csr "field" 0x112 in
    let y = rmw 0xabcd andterm orterm in
    (e ≡ none)
    × (read_mask csr "field" y ≡ (bit_and 0x112 (0x0ff0 >>> 4), none))
    × (and_not y 0x0ff0 ≡ and_not 0xabcd 0x0ff0)
read_mask-write_mask_example =
    read_mask-write_mask csr "field" field 0x112 0xabcd field_found (omega arith)
