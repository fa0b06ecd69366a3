-- ===== src/AddressTable/Tests.antt =====
-- Runs of `parseregfile` on small tables.
use Prim.Native.String.{String}
use text.Mathlib.Text.{◌==◌ as str_eq}
use ipbus.Common.{
  ℕ, ◌<◌, ◌≡◌, ◌≢◌, refl, sym, ◌∙◌, ℤ, pos, Bool-cases, inl, inr, subst, true, false, List, [], ◌∷◌,
  Option, none, some, arith, if◌then◌else◌,
}
use ipbus.Outcome.{Outcome, done, panic, stuck}
use ipbus.Protocol.{Error, outside_error}
use ipbus.Strings.{split, pieces, join, front, last, contains, remove_first, drop_chars}
use ipbus.Strings.Laws.{dots}
use ipbus.Register.{Register}
use ipbus.AddressTable.{
  Token, start_element, end_element, other, Opened, not_opened, file, Outside, modfn, Regs,
  lookup_reg,
}
use ipbus.AddressTable.Attributes.{attributes, attribute, id_attribute}
use ipbus.AddressTable.Parse.{
  parseregfile, walk, begin_element, begin_reg, begin_block, begin_mask, put_block, register,
  finish_file, width_loop,
}
use ipbus.AddressTable.Spec.{BlockEntry, table_tokens, IsTable, add_table, top_register}
use ipbus.AddressTable.Meaning.{parseregfile-table}
use ipbus.AddressTable.Ends.{Ends, IsRanked, AllModules, parseregfile-Ends}

-- A few numbers, as `strconv` reads them.
abbrev numbers : String → ℕ
numbers s =
    if str_eq s "0x1000"
    then 4096
    else if str_eq s "0x2000"
    then 8192
    else if str_eq s "0x4"
    then 4
    else if str_eq s "0xff00"
    then 65280
    else 0

abbrev small_int : String → ℤ
small_int s = if str_eq s "31" then pos 31 else pos 0

abbrev outside : (String → Opened) → Outside
outside open_file = record {
  open_file = open_file;
  parse_uint = numbers;
  parse_int = small_int;
  split_dir = λ fn. "";
  dir = λ fn. "";
  join_path = λ dir fn. fn;
}

-- The attributes in two orders, and some that the code does not look at.
abbrev two_blocks : List BlockEntry
two_blocks =
    record {
      id = "ctrl";
      attrs =
          ("id", "ctrl")
          ∷ ("address", "0x1000")
          ∷ ("description", "status")
          ∷ ("fwinfo", "endpoint;width=31")
          ∷ [];
      entries =
          record {
            id = "mode";
            attrs = ("id", "mode") ∷ ("address", "0x4") ∷ ("permission", "rw") ∷ [];
            masks = record { id = "high"; attrs = ("id", "high") ∷ ("mask", "0xff00") ∷ [] } ∷ [];
          }
          ∷ [];
    }
    ∷ record {
      id = "fifo";
      attrs =
          ("mode", "port")
          ∷ ("id", "fifo")
          ∷ ("fwinfo", "endpoint")
          ∷ ("address", "0x2000")
          ∷ ("description", "channel FIFO access")
          ∷ [];
      entries = [];
    }
    ∷ []

-- The tokens of the table, with others between them.
abbrev table_file : List Token
table_file = other ∷ table_tokens "TOP" two_blocks

abbrev with_table : Outside
with_table =
    outside (λ fn. if str_eq fn "t.xml" then file table_file none else not_opened outside_error)

two_blocks-IsTable : IsTable with_table two_blocks (pos 32 ∷ pos 0 ∷ [])
unfolding width_loop split pieces contains dots
two_blocks-IsTable = (
  (refl, refl),
  inl (refl, refl, (refl, (refl, (refl, tt)))),
  refl,
  inr (refl, inl refl),
  (
    (refl, refl),
    inl (refl, refl, (refl, (refl, tt))),
    refl,
    inr (refl, inl refl),
    ((refl, refl), inl (refl, refl, (refl, tt)), refl, tt),
    tt,
  ),
  refl,
  (
    (refl, refl),
    inr (refl, inl (refl, refl, (refl, (refl, (refl, tt))))),
    refl,
    inr (refl, inr (refl, inr (refl, inl refl))),
    tt,
    refl,
    tt,
  ),
)

parseregfile-table_example :
    (regs : Regs) × (parseregfile with_table 1 "t.xml" "" 0 [] ≡ done (regs, none))
    × ((k : String)
        → k ≢ ""
        → lookup_reg k regs
          ≡ lookup_reg k (
              add_table with_table "" 0 two_blocks
                (pos 32 ∷ pos 0 ∷ [])
                (("", top_register "") ∷ [])))
parseregfile-table_example =
    parseregfile-table with_table 0 "t.xml" "" 0 [] table_file "TOP" two_blocks
      (pos 32 ∷ pos 0 ∷ []) refl refl two_blocks-IsTable

abbrev node : List (String × String) → Token
node = start_element

-- A table that names the file of a module, and that file.
abbrev top_file : List Token
top_file =
    node (("id", "TOP") ∷ [])
    ∷ node (("id", "sub") ∷ ("module", "file://sub.xml") ∷ ("address", "0x2000") ∷ [])
    ∷ end_element
    ∷ end_element
    ∷ []

-- A module with a register outside a block, and one whose block comes first.
abbrev sub_file : List Token
sub_file =
    node (("id", "m") ∷ [])
    ∷ node (("id", "early") ∷ ("address", "0x4") ∷ [])
    ∷ end_element
    ∷ node (("id", "b") ∷ ("address", "0x1000") ∷ ("fwinfo", "endpoint") ∷ [])
    ∷ end_element
    ∷ node (("id", "late") ∷ ("address", "0x4") ∷ [])
    ∷ end_element
    ∷ end_element
    ∷ []

abbrev modules : String → Opened
modules fn =
    if str_eq fn "top.xml"
    then file top_file none
    else if str_eq fn "sub.xml"
    then file sub_file none
    else not_opened outside_error

abbrev rank : String → ℕ
rank fn = if str_eq fn "top.xml" then 1 else 0

abbrev regs_of : Outcome (Regs × Option Error) → Regs
regs_of (done (regs, e)) = regs
regs_of _ = []

abbrev address_in : String → Outcome (Regs × Option Error) → Option ℕ
address_in k r = addr (lookup_reg k (regs_of r))
  where
    addr : Option Register → Option ℕ
    addr none = none
    addr (some r) = some (r.addr)

abbrev read_modules : Outcome (Regs × Option Error)
read_modules = parseregfile (outside modules) 2 "top.xml" "" 0 []

-- The address of the module counts for its blocks only; a register behind a block still has its address.
module_addresses :
    (address_in "sub.early" read_modules ≡ some 4)
    × (address_in "sub.b" read_modules ≡ some 12288)
    × (address_in "sub.late" read_modules ≡ some 12292)
unfolding parseregfile walk begin_element attributes attribute id_attribute begin_reg begin_block
    put_block register finish_file width_loop remove_first drop_chars split pieces contains join
    front last lookup_reg
module_addresses = (refl, refl, refl)

-- A mask before any register panics.
mask_first :
    parseregfile
      (outside (λ fn. file (node (("id", "m") ∷ ("mask", "0x4") ∷ []) ∷ []) none))
      1
      "t.xml"
      ""
      0
      []
    ≡ panic
unfolding parseregfile walk begin_element attributes attribute id_attribute begin_mask
mask_first = refl

-- A file that names itself is read without an end.
endless : parseregfile (outside (λ fn. file top_file none)) 5 "t.xml" "" 0 [] ≡ stuck
unfolding parseregfile walk begin_element attributes attribute id_attribute remove_first drop_chars
endless = refl

same_tokens : {ts us : List Token} {a b : Option Error} → file ts a ≡ file us b → ts ≡ us
same_tokens e = cc

no_file : {er : Error} {us : List Token} {b : Option Error} → not_opened er ≡ file us b → ⊥
no_file e = cc

-- Of an attribute that is not `module`, nothing is asked.
other_name {ℓ} : {A : Type ℓ} → false ≡ true → A
other_name e = absurd (no_path e)
  where
    no_path : false ≡ true → ⊥
    no_path k = cc

top_ranked :
    (fn : String)
    → str_eq fn "top.xml" ≡ true
    → AllModules (λ v. rank (modfn (outside modules) fn v) < rank fn) top_file
unfolding remove_first drop_chars
top_ranked fn e =
    rw e ((other_name, tt), ((other_name, ((λ _. omega arith), (other_name, tt))), tt))

sub_ranked :
    (fn : String) → AllModules (λ v. rank (modfn (outside modules) fn v) < rank fn) sub_file
sub_ranked fn = (
  (other_name, tt),
  (
    (other_name, (other_name, tt)),
    ((other_name, (other_name, (other_name, tt))), ((other_name, (other_name, tt)), tt)),
  ),
)

opens_top : (fn : String) → str_eq fn "top.xml" ≡ true → modules fn ≡ file top_file none
opens_top fn e = rw e refl

opens_sub :
    (fn : String)
    → str_eq fn "top.xml" ≡ false
    → str_eq fn "sub.xml" ≡ true
    → modules fn ≡ file sub_file none
opens_sub fn e f = rw (e, f) refl

opens_none :
    (fn : String)
    → str_eq fn "top.xml" ≡ false
    → str_eq fn "sub.xml" ≡ false
    → modules fn ≡ not_opened outside_error
opens_none fn e f = rw (e, f) refl

is_ranked : IsRanked (outside modules) rank
is_ranked fn tokens ends e = elim (Bool-cases (str_eq fn "top.xml")) [
  | inl is_top ↦
      subst (AllModules (λ v. rank (modfn (outside modules) fn v) < rank fn))
        (same_tokens (sym (opens_top fn is_top) ∙ e)) (top_ranked fn is_top)
  | inr not_top ↦ elim (Bool-cases (str_eq fn "sub.xml")) [
    | inl is_sub ↦
        subst (AllModules (λ v. rank (modfn (outside modules) fn v) < rank fn))
          (same_tokens (sym (opens_sub fn not_top is_sub) ∙ e)) (sub_ranked fn)
    | inr not_sub ↦ absurd (no_file (sym (opens_none fn not_top not_sub) ∙ e))
  ]
]

parseregfile-Ends_example : Ends (parseregfile (outside modules) 2 "top.xml" "" 0 [])
parseregfile-Ends_example =
    parseregfile-Ends (outside modules) rank 2 "top.xml" "" 0 [] is_ranked (omega arith)
