-- ===== src/AddressTable/Attributes.antt =====
-- The attributes of an element.
use Prim.Native.String.{String}
use text.Mathlib.Text.{◌==◌ as str_eq}
use ipbus.Common.{false, List, [], ◌∷◌, if◌then◌else◌, u32}
use ipbus.Strings.{child}
use ipbus.AddressTable.{Outside, Walk, top, mask, included, blk, Element}

unfoldable pub id_attribute : String → Walk × Element → Walk × Element
id_attribute v (w, e) =
    if w.toplevel
    then (record w { toplevel = false }, e)
    else if str_eq v "TOP"
    then (w, record e { regtype = top })
    else (record w { name = child w.name v }, e)

module _ (out : Outside) where
  unfoldable pub attribute : String × String → Walk × Element → Walk × Element
  attribute (n, v) (w, e) =
      if str_eq n "id"
      then id_attribute v (w, e)
      else if str_eq n "address"
      then (record w { localaddr = u32 (out.parse_uint v) }, e)
      else if str_eq n "mask"
      then (w, record e { regtype = mask; mask_value = u32 (out.parse_uint v) })
      else if str_eq n "module"
      then (w, record e { regtype = included; included_file = v })
      else if str_eq n "description"
      then (w, record e { description = v })
      else if str_eq n "fwinfo"
      then (w, record e { regtype = blk; fwinfo = v })
      else if str_eq n "mode"
      then (w, record e { mode = v })
      else (w, e)

  unfoldable pub attributes : List (String × String) → Walk × Element → Walk × Element
  attributes [] q = q
  attributes (a ∷ rest) q = attributes rest (attribute a q)
