-- ===== src/Register.antt =====
-- register.go: the bit masks of a register. `String` methods, which only print, are left out.
pub mod Lowest
pub mod Masks
mod Tests
use Prim.Native.String.{String}
use text.Mathlib.Text.{◌==◌ as str_eq}
use ipbus.Common.{
  ℕ, ℤ, zero, suc, ◌+◌, ◌-◌, ◌*◌, ◌/◌, ◌%◌, ◌^◌, Bool, List, [], ◌∷◌, Option, none, some, ltb,
  if◌then◌else◌, bit_and, bit_xor, u32, ◌<<<◌, ◌>>>◌,
}
use ipbus.Protocol.{Error, no_mask}

-- `msk`
pub record Msk : Type 0 where
  pub name : String
  pub value : ℕ
  pub shift : ℕ

-- The loop of `newmask` from index `i` on, with the rounds left; 0 if no digit of the mask is set.
unfoldable pub first_set : ℕ → ℕ → ℕ → ℕ
first_set zero i value = 0
first_set (suc rounds) i value =
    let rest = first_set rounds (i + 1) value in
    if ltb 0 (bit_and (u32 (1 <<< i)) value) then i else rest

unfoldable pub newmask : String → ℕ → Msk
newmask name value = record { name = name; value = value; shift = first_set 32 0 value }

-- The map from mask names is an association list; the first entry of a key counts.
pub record Register : Type 0 where
  pub name : String
  pub addr : ℕ
  pub masks : List String
  pub noninc : Bool
  pub size : ℤ
  pub msks : List (String × Msk)

unfoldable pub lookup_mask : String → List (String × Msk) → Option Msk
lookup_mask k [] = none
lookup_mask k ((j, m) ∷ rest) = if str_eq j k then some m else lookup_mask k rest

-- `a &^ b` on uint32
abbrev pub and_not : ℕ → ℕ → ℕ
and_not a b = bit_and a (bit_xor 0xffffffff b)

read_with : Option Msk → ℕ → ℕ × Option Error
read_with none val = (0, some no_mask)
read_with (some m) val = (bit_and val m.value >>> m.shift, none)

unfoldable pub read_mask : Register → String → ℕ → ℕ × Option Error
unfolding read_with
read_mask r mask val = read_with (lookup_mask mask r.msks) val

pub write_with : Option Msk → ℕ → ℕ × ℕ × Option Error
write_with none val = (0, 0, some no_mask)
write_with (some m) val =
    (and_not 0xffffffff m.value, bit_and (u32 (val <<< m.shift)) m.value, none)

unfoldable pub write_mask : Register → String → ℕ → ℕ × ℕ × Option Error
unfolding write_with
write_mask r mask val = write_with (lookup_mask mask r.msks) val
