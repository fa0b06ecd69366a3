-- ===== src/AddressTable/Spec.antt =====
-- What an address table says, without the walk: blocks of registers with masks, as tokens and as the
-- registers that they describe.
use Prim.Native.String.{String}
use text.Mathlib.Text.{◌==◌ as str_eq}
use ipbus.Common.{ℕ, ◌+◌, ◌≡◌, ◌⊎◌, ℤ, pos, true, false, List, [], ◌∷◌, ◌++◌, u32, if◌then◌else◌}
use ipbus.Outcome.{done}
use ipbus.Strings.{split, child}
use ipbus.Strings.Laws.{IsPart}
use ipbus.Register.{Register, newmask}
use ipbus.AddressTable.{
  Token, start_element, end_element, other, Outside, Regs, Regtype, unset, mask, included, blk,
}
use ipbus.AddressTable.Parse.{width_loop}

-- The attributes of an element, in any order.
abbrev pub Attrs : Type 0
Attrs = List (String × String)

-- The value of the attribute `k`, or `d` without one; the last one counts.
abbrev pub value : String → String → Attrs → String
value k d [] = d
value k d ((n, v) ∷ attrs) = value k (if str_eq n k then v else d) attrs

-- What kind of element the attributes make of one.
abbrev pub kind : Regtype → Attrs → Regtype
kind k [] = k
kind k ((n, v) ∷ attrs) =
    kind
      (if str_eq n "mask"
        then mask
        else if str_eq n "module"
        then included
        else if str_eq n "fwinfo"
        then blk
        else k)
      attrs

abbrev pub HasKey : String → Attrs → Type 0
HasKey k [] = ⊥
HasKey k ((n, v) ∷ attrs) = (str_eq n k ≡ true) ⊎ ((str_eq n k ≡ false) × HasKey k attrs)

abbrev pub NoKey : String → Attrs → Type 0
NoKey k [] = Unit
NoKey k ((n, v) ∷ attrs) = (str_eq n k ≡ false) × NoKey k attrs

-- There is one attribute `id`, with this value.
abbrev pub HasId : String → Attrs → Type 0
HasId id [] = ⊥
HasId id ((n, v) ∷ attrs) =
    ((n ≡ "id") × (v ≡ id) × NoKey "id" attrs) ⊎ ((str_eq n "id" ≡ false) × HasId id attrs)

pub record MaskEntry : Type 0 where
  pub id : String
  pub attrs : Attrs

pub record RegEntry : Type 0 where
  pub id : String
  pub attrs : Attrs
  pub masks : List MaskEntry

pub record BlockEntry : Type 0 where
  pub id : String
  pub attrs : Attrs
  pub entries : List RegEntry

abbrev pub masks_tokens : List MaskEntry → List Token → List Token
masks_tokens [] ts = ts
masks_tokens (m ∷ ms) ts = start_element m.attrs ∷ end_element ∷ masks_tokens ms ts

abbrev pub regs_tokens : List RegEntry → List Token → List Token
regs_tokens [] ts = ts
regs_tokens (r ∷ rs) ts =
    start_element r.attrs ∷ masks_tokens r.masks (end_element ∷ regs_tokens rs ts)

abbrev pub blocks_tokens : List BlockEntry → List Token → List Token
blocks_tokens [] ts = ts
blocks_tokens (b ∷ bs) ts =
    start_element b.attrs ∷ regs_tokens b.entries (end_element ∷ blocks_tokens bs ts)

-- The table in one element, whose id is left out.
abbrev pub table_tokens : String → List BlockEntry → List Token
table_tokens id bs = start_element (("id", id) ∷ []) ∷ blocks_tokens bs (end_element ∷ [])

-- The tokens that begin or end an element.
abbrev pub elements : List Token → List Token
elements [] = []
elements (other ∷ ts) = elements ts
elements (t ∷ ts) = t ∷ elements ts

-- A part of a name that is not the id of the top.
abbrev pub IsId : String → Type 0
IsId v = IsPart v × (str_eq v "TOP" ≡ false)

-- The attributes of a mask, of a register and of a block, each with its id; of `mask`, `module` and
-- `fwinfo` the first has `mask` last, the second none, the third `fwinfo` last. Registers and blocks
-- have an address.
abbrev pub AreMasks : List MaskEntry → Type 0
AreMasks [] = Unit
AreMasks (m ∷ ms) = IsId m.id × HasId m.id m.attrs × (kind unset m.attrs ≡ mask) × AreMasks ms

abbrev pub AreRegs : List RegEntry → Type 0
AreRegs [] = Unit
AreRegs (r ∷ rs) =
    IsId r.id
    × HasId r.id r.attrs
    × (kind unset r.attrs ≡ unset)
    × HasKey "address" r.attrs
    × AreMasks r.masks
    × AreRegs rs

abbrev pub block_of : String → ℕ → BlockEntry → ℤ → Register
block_of name addr b size = record {
  name = name;
  addr = addr;
  masks = [];
  noninc = str_eq (value "mode" "" b.attrs) "port";
  size = size;
  msks = [];
}

-- The element around the table counts as a register at address 0.
abbrev pub top_register : String → Register
top_register name = record {
  name = name;
  addr = 0;
  masks = [];
  noninc = false;
  size = pos 1;
  msks = [];
}

module _ (out : Outside) where
  -- The number that the attribute `k` is, or `a` without one; the last one counts.
  abbrev pub number : String → ℕ → Attrs → ℕ
  number k a [] = a
  number k a ((n, v) ∷ attrs) = number k (if str_eq n k then u32 (out.parse_uint v) else a) attrs

  -- The ids are fit for names, and the width of each block can be read.
  abbrev pub IsTable : List BlockEntry → List ℤ → Type 0
  IsTable [] [] = Unit
  IsTable (b ∷ bs) (size ∷ sizes) =
      IsId b.id
      × HasId b.id b.attrs
      × (kind unset b.attrs ≡ blk)
      × HasKey "address" b.attrs
      × AreRegs b.entries
      × (width_loop out (split 59 (value "fwinfo" "" b.attrs)) (pos 0) ≡ done size)
      × IsTable bs sizes
  IsTable _ _ = ⊥

  abbrev pub with_mask : MaskEntry → Register → Register
  with_mask m r = record r {
    masks = r.masks ++ (m.id ∷ []);
    msks = (m.id, newmask m.id (number "mask" 0 m.attrs)) ∷ r.msks;
  }

  -- A register with masks more.
  abbrev pub with_masks : List MaskEntry → Register → Register
  with_masks [] r = r
  with_masks (m ∷ ms) r = with_masks ms (with_mask m r)

  abbrev pub reg_of : String → ℕ → RegEntry → Register
  reg_of name addr r = with_masks r.masks (record {
    name = child name r.id;
    addr = u32 (addr + number "address" 0 r.attrs);
    masks = [];
    noninc = str_eq (value "mode" "" r.attrs) "port";
    size = pos 1;
    msks = [];
  })

  abbrev pub add_regs : String → ℕ → List RegEntry → Regs → Regs
  add_regs name addr [] regs = regs
  add_regs name addr (r ∷ rs) regs =
      add_regs name addr rs ((child name r.id, reg_of name addr r) ∷ regs)

  -- The address of a block in a file.
  abbrev pub address_of : ℕ → BlockEntry → ℕ
  address_of fileaddr b = u32 (number "address" 0 b.attrs + fileaddr)

  -- The registers of a table, onto those that there are: for each block the block itself and then its
  -- registers, with dots in their names and with the address of the block added to their own.
  abbrev pub add_table : String → ℕ → List BlockEntry → List ℤ → Regs → Regs
  add_table name fileaddr (b ∷ bs) (size ∷ sizes) regs = add_table name fileaddr bs sizes (
      add_regs (child name b.id) (address_of fileaddr b) b.entries
        ((child name b.id, block_of (child name b.id) (address_of fileaddr b) b size) ∷ regs))
  add_table name fileaddr _ _ regs = regs
