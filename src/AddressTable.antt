-- ===== src/AddressTable.antt =====
-- parser.go: `parseregfile`, which reads the registers of a target from an address table in XML. The
-- package encoding/xml, the files, their paths and strconv are parameters (Outside): a file is the
-- tokens that the decoder returns for it, and the error behind them.
pub mod Attributes
pub mod Parse
pub mod Spec
pub mod Read
pub mod Run
pub mod Registers
pub mod Meaning
pub mod Ends
mod Tests
use Prim.Native.String.{String}
use text.Mathlib.Text.{◌==◌ as str_eq}
use ipbus.Common.{
  ℕ, zero, suc, ◌+◌, ◌%◌, ◌^◌, ℤ, pos, negsuc, succ, Bool, true, false, List, [], ◌∷◌, ◌++◌, Option,
  none, some, if◌then◌else◌, u32,
}
use ipbus.Outcome.{Outcome, done, panic, stuck, ◌>>=◌, or_panic}
use ipbus.Protocol.{Error}
use ipbus.Strings.{split, contains, remove_first, last, child, parent}
use ipbus.Register.{Register, Msk, newmask}

-- What `dec.Token` returns: an element begins, with its attributes; an element ends; anything else.
pub data Token : Type 0 where
  start_element : List (String × String) → Token
  end_element : Token
  other : Token

-- What `os.Open` and the decoder make of a path: an error, or the tokens, and the error behind the
-- last of them, if it is not `io.EOF`.
pub data Opened : Type 0 where
  not_opened : Error → Opened
  file : List Token → Option Error → Opened

pub record Outside : Type 0 where
  pub open_file : String → Opened
  -- the values of `strconv.ParseUint(s, 0, 32)` and `strconv.ParseInt(s, 10, 32)`
  pub parse_uint : String → ℕ
  pub parse_int : String → ℤ
  -- the directory that `filepath.Split` returns, `filepath.Dir`, `filepath.Join`
  pub split_dir : String → String
  pub dir : String → String
  pub join_path : String → String → String

-- The file of a module: its name without `file://`, in the directory of the file that names it.
abbrev pub modfn : Outside → String → String → String
modfn out fn included_file = out.join_path (out.split_dir fn) (remove_first "file://" included_file)

pub record Block : Type 0 where
  pub id : String
  pub address : ℕ
  pub description : String
  pub fwinfo : String
  pub mode : String

abbrev pub zero_block : Block
zero_block = record { id = ""; address = 0; description = ""; fwinfo = ""; mode = "" }

abbrev pub zero_register : Register
zero_register = record { name = ""; addr = 0; masks = []; noninc = false; size = pos 0; msks = [] }

-- `t.Regs`; the first entry of a key counts.
abbrev pub Regs : Type 0
Regs = List (String × Register)

unfoldable pub lookup_reg : String → Regs → Option Register
lookup_reg k [] = none
lookup_reg k ((j, r) ∷ rest) = if str_eq j k then some r else lookup_reg k rest

-- The variables of `parseregfile`, and `t.Regs`. `reg_made` says that `currentreg` is not the zero
-- value, whose map of masks is nil.
pub record Walk : Type 0 where
  pub name : String
  pub baseaddr : ℕ
  pub localaddr : ℕ
  pub currentblock : Block
  pub currentreg : Register
  pub reg_made : Bool
  pub toplevel : Bool
  pub regs : Regs

-- The values of `regtype`, and the variables of one element.
pub data Regtype : Type 0 where
  unset top reg mask included blk : Regtype

pub record Element : Type 0 where
  pub regtype : Regtype
  pub included_file : String
  pub description : String
  pub fwinfo : String
  pub mode : String
  pub mask_value : ℕ

abbrev pub zero_element : Element
zero_element = record {
  regtype = unset;
  included_file = "";
  description = "";
  fwinfo = "";
  mode = "";
  mask_value = 0;
}
