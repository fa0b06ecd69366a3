-- ===== src/AddressTable/Parse.antt =====
-- The elements of an address table, and the loop on the tokens.
use Prim.Native.String.{String}
use text.Mathlib.Text.{◌==◌ as str_eq}
use ipbus.Common.{
  ℕ, zero, suc, ◌+◌, ℤ, pos, succ, true, false, List, [], ◌∷◌, ◌++◌, Option, none, some,
  if◌then◌else◌, u32,
}
use ipbus.Outcome.{Outcome, done, panic, stuck, ◌>>=◌, or_panic}
use ipbus.Protocol.{Error}
use ipbus.Strings.{split, contains, last, parent}
use ipbus.Register.{Register, newmask}
use ipbus.AddressTable.{
  Token, start_element, end_element, other, Opened, not_opened, file, Outside, modfn, Block,
  zero_block, zero_register, Regs, Walk, Regtype, unset, top, reg, mask, included, blk, Element,
  zero_element,
}
use ipbus.AddressTable.Attributes.{attributes}

-- `vv[1]`
abbrev pub second : List String → Option String
second (x ∷ y ∷ rest) = some y
second _ = none

module _ (out : Outside) where
  -- The loop of `register` over the parts of `fwinfo`.
  unfoldable pub width_loop : List String → ℤ → Outcome ℤ
  width_loop [] size = done size
  width_loop (v ∷ vals) size =
      if contains v "width"
      then (or_panic (second (split 61 v)) >>= λ n. width_loop vals (succ (out.parse_int n)))
      else width_loop vals size

  -- `block.register`
  unfoldable pub register : Block → Outcome Register
  register b = do
    size ← width_loop (split 59 b.fwinfo) (pos 0)
    done (record {
      name = b.id;
      addr = b.address;
      masks = [];
      noninc = str_eq b.mode "port";
      size = size;
      msks = [];
    })

  unfoldable pub put_block : Block → Regs → Outcome Regs
  put_block b regs = do r ← register b; done ((b.id, r) ∷ regs)

  -- `case regtype == "blk"`
  unfoldable pub begin_block : ℕ → Walk → Element → Outcome Walk
  begin_block filebaseaddr w e = do
    let baseaddr = u32 (w.localaddr + filebaseaddr)
    regs ← if str_eq w.currentblock.id "" then done w.regs else put_block w.currentblock w.regs
    done (record w {
      baseaddr = baseaddr;
      localaddr = 0;
      currentblock = record {
        id = w.name;
        address = u32 (baseaddr + 0);
        description = e.description;
        fwinfo = e.fwinfo;
        mode = e.mode;
      };
      regs = regs;
    })

-- `case regtype == "reg"`
unfoldable pub begin_reg : Walk → Element → Walk
begin_reg w e =
    let regs =
      if str_eq w.currentreg.name "" then w.regs else (w.currentreg.name, w.currentreg) ∷ w.regs in
    record w {
      regs = regs;
      currentreg = record {
        name = w.name;
        addr = u32 (w.baseaddr + w.localaddr);
        masks = [];
        noninc = str_eq e.mode "port";
        size = pos 1;
        msks = [];
      };
      reg_made = true;
    }

-- `case regtype == "mask"`; to assign to a nil map panics.
unfoldable pub begin_mask : Walk → Element → Outcome Walk
begin_mask w e =
    let maskname = last (split 46 w.name) in
    if w.reg_made
    then done (record w {
      currentreg = record (w.currentreg) {
        masks = w.currentreg.masks ++ (maskname ∷ []);
        msks = (maskname, newmask maskname e.mask_value) ∷ w.currentreg.msks;
      };
    })
    else panic

-- What `parseregfile` returns, with `t.Regs` after it.
abbrev pub Parsed : Type 0
Parsed = Outcome (Regs × Option Error)

-- Of a file, name, base address and registers: `parseregfile` for the file of a module.
abbrev pub Include : Type 0
Include = String → String → ℕ → Regs → Parsed

-- `if err := t.parseregfile(…); err != nil { return err }`
abbrev pub unless_err : (Regs → Parsed) → Regs × Option Error → Parsed
unless_err go_on (regs, some e) = done (regs, some e)
unless_err go_on (regs, none) = go_on regs

module _ (out : Outside) where
  unfoldable pub finish_file : Walk → Parsed
  finish_file w = do
    regs ← put_block out w.currentblock ((w.currentreg.name, w.currentreg) ∷ w.regs)
    done (regs, none)

  -- The `switch` on `regtype`, and what is done behind it.
  unfoldable pub begin_element :
      Include → String → ℕ → (Walk → Parsed) → Walk × Element → Regtype → Parsed
  begin_element include fn filebaseaddr go_on (w, e) blk =
      begin_block out filebaseaddr w e >>= go_on
  begin_element include fn filebaseaddr go_on (w, e) unset = go_on (begin_reg w e)
  begin_element include fn filebaseaddr go_on (w, e) reg = go_on (begin_reg w e)
  begin_element include fn filebaseaddr go_on (w, e) mask = begin_mask w e >>= go_on
  begin_element include fn filebaseaddr go_on (w, e) included =
      include (modfn out fn e.included_file) w.name (u32 (w.localaddr + filebaseaddr)) w.regs
      >>= unless_err (λ regs. go_on (record w { regs = regs }))
  begin_element include fn filebaseaddr go_on (w, e) top = go_on w

  -- The loop on the tokens.
  unfoldable pub walk : Include → String → ℕ → List Token → Option Error → Walk → Parsed
  walk include fn filebaseaddr [] none w = finish_file w
  walk include fn filebaseaddr [] (some e) w = done (w.regs, some e)
  walk include fn filebaseaddr (start_element attrs ∷ tokens) ends w =
      let (w', e) = attributes out attrs (w, zero_element) in
      begin_element include fn filebaseaddr (walk include fn filebaseaddr tokens ends) (w', e)
        e.regtype
  walk include fn filebaseaddr (end_element ∷ tokens) ends w =
      walk include fn filebaseaddr tokens ends (record w { name = parent w.name })
  walk include fn filebaseaddr (other ∷ tokens) ends w = walk include fn filebaseaddr tokens ends w

  abbrev pub first_walk : String → Regs → Walk
  first_walk basename regs = record {
    name = basename;
    baseaddr = 0;
    localaddr = 0;
    currentblock = zero_block;
    currentreg = zero_register;
    reg_made = false;
    toplevel = true;
    regs = regs;
  }

  abbrev pub opened : Include → String → String → ℕ → Regs → Opened → Parsed
  opened include fn basename filebaseaddr regs (not_opened e) = done (regs, some e)
  opened include fn basename filebaseaddr regs (file tokens ends) =
      walk include fn filebaseaddr tokens ends (first_walk basename regs)

  -- `parseregfile`, on fuel: a file may name files of modules, these others, and so on.
  unfoldable pub parseregfile : ℕ → Include
  parseregfile zero fn basename filebaseaddr regs = stuck
  parseregfile (suc fuel) fn basename filebaseaddr regs =
      opened (parseregfile fuel) fn basename filebaseaddr regs (out.open_file fn)
