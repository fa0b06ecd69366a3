-- ===== src/AddressTable/Meaning.antt =====
-- The registers that the walk leaves are those that the table describes.
use Prim.Native.String.{String}
use text.Mathlib.TextEquality.{eq_iff}
use ipbus.Common.{
  ℕ, suc, ◌+◌, ◌^◌, ◌<◌, ◌≡◌, ◌≢◌, refl, ap, subst, ◌∙◌, ◌⊎◌, ℤ, pos, inl, inr, true, false, List,
  [], ◌∷◌, Option, none, arith, u32,
}
use ipbus.Outcome.{done}
use ipbus.Protocol.{Error}
use ipbus.Strings.{split, contains, pieces, child}
use ipbus.Strings.Laws.{depth, depth-child}
use ipbus.Register.{Register}
use ipbus.AddressTable.{
  Token, end_element, Outside, file, Regs, Walk, lookup_reg, zero_block, zero_register,
}
use ipbus.AddressTable.Attributes.{id_attribute, attribute, attributes}
use ipbus.AddressTable.Parse.{
  begin_element, begin_reg, width_loop, register, put_block, walk, finish_file, parseregfile,
  Include, first_walk,
}
use ipbus.AddressTable.Spec.{
  BlockEntry, value, blocks_tokens, table_tokens, elements, IsTable, block_of, address_of, add_regs,
  add_table, top_register,
}
use ipbus.AddressTable.Run.{after_regs-kept, in_block, after_block, walk-block, walk-elements}
use ipbus.AddressTable.Registers.{lookup_reg-block, View, after_regs-View, after_regs-depth}

module _ (out : Outside) (include : Include) (fn : String) (fileaddr : ℕ)
    (ends : Option Error) where
  -- The state between two blocks of the element `base`.
  pub record Ready (base : String) (w : Walk) (acc : Regs) : Type 0 where
    pub old : Register
    pub registers : register out w.currentblock ≡ done old
    pub name_is : w.name ≡ base
    pub inside : w.toplevel ≡ false
    pub reg_depth : depth w.currentreg.name ≢ suc (depth base)
    pub block_depth : (w.currentblock.id ≡ "") ⊎ (depth w.currentblock.id ≡ suc (depth base))
    pub view : View w old acc

  block-registers :
      (name description : String) (addr : ℕ) (b : BlockEntry) (size : ℤ)
      → width_loop out (split 59 (value "fwinfo" "" b.attrs)) (pos 0) ≡ done size
      → addr < 2 ^ 32
      → register out (record {
        id = name;
        address = u32 (addr + 0);
        description = description;
        fwinfo = value "fwinfo" "" b.attrs;
        mode = value "mode" "" b.attrs;
      })
        ≡ done (block_of name addr b size)
  unfolding register
  block-registers name description addr b size width fits =
      rw width
        (ap (λ a. done (block_of name a b size)) {x = u32 (addr + 0)} {y = addr} (omega arith))

  after_block-Ready :
      (b : BlockEntry) (size : ℤ) (base : String) (w : Walk) (acc : Regs)
      → IsTable out (b ∷ []) (size ∷ [])
      → (r : Ready base w acc)
      → Ready base
          (after_block out include fn fileaddr ends w b r.old)
          (add_table out base fileaddr (b ∷ []) (size ∷ []) acc)
  after_block-Ready b size base w acc (v, _, _, _, vs, width, _) r =
      let w1 = in_block out include fn fileaddr ends w b r.old in
      let name = child w.name b.id in
      let addr = address_of out fileaddr b in
      let same = after_regs-kept out include fn fileaddr ends b.entries w1 in
      let deep : depth name ≡ suc (depth base) =
        depth-child w.name b.id v.0 ∙ ap (λ n. suc (depth n)) r.name_is in
      record {
        old = block_of name addr b size;
        registers =
            ap (λ g. register out g.currentblock) same
            ∙ block-registers name (value "description" "" b.attrs) addr b size width (omega arith);
        name_is = r.name_is;
        inside = ap (λ g. g.toplevel) same ∙ r.inside;
        reg_depth = λ e.
            after_regs-depth out include fn fileaddr ends b.entries w1 (suc (depth base)) deep vs
              r.reg_depth e;
        block_depth = inr (ap (λ g. depth g.currentblock.id) same ∙ deep);
        view =
            subst
              (λ n.
                View (after_block out include fn fileaddr ends w b r.old)
                  (block_of name addr b size)
                  (add_regs out (child n b.id) addr b.entries
                    ((child n b.id, block_of (child n b.id) addr b size) ∷ acc)))
              r.name_is
              (after_regs-View out include fn fileaddr ends b.entries w1 (block_of name addr b size)
                _ refl vs
                (λ k nonempty.
                  lookup_reg-block k name w.currentblock.id w.currentreg.name
                    (block_of name addr b size) r.old w.currentreg w.regs acc nonempty
                    (apart r.block_depth) (r.view k nonempty)));
      }
    where
      apart :
          (w.currentblock.id ≡ "") ⊎ (depth w.currentblock.id ≡ suc (depth base))
          → (w.currentblock.id ≡ "") ⊎ (w.currentreg.name ≢ w.currentblock.id)
      apart (inl e) = inl e
      apart (inr e) = inr (λ same. r.reg_depth (ap depth same ∙ e))

  blocks-Ready :
      (bs : List BlockEntry) (sizes : List ℤ) (base : String) (ts : List Token) (w : Walk)
      (acc : Regs)
      → IsTable out bs sizes
      → Ready base w acc
      → (w' : Walk) × (walk out include fn fileaddr (blocks_tokens bs ts) ends w
          ≡ walk out include fn fileaddr ts ends w')
        × Ready base w' (add_table out base fileaddr bs sizes acc)
  blocks-Ready [] [] base ts w acc t r = (w, refl, r)
  blocks-Ready (b ∷ bs) (size ∷ sizes) base ts w acc (v, h, k, has, vs, width, t) r =
      let (w', e, r') =
        blocks-Ready bs sizes base ts (after_block out include fn fileaddr ends w b r.old) _ t
          (after_block-Ready b size base w acc (v, h, k, has, vs, width, tt) r) in
      (
        w',
        walk-block out include fn fileaddr ends b r.old (blocks_tokens bs ts) w r.inside v h k has
              vs r.registers
            ∙ e,
        r',
      )
  blocks-Ready [] (size ∷ sizes) base ts w acc t r = absurd t
  blocks-Ready (b ∷ bs) [] base ts w acc t r = absurd t

-- The state behind the beginning of the element around the table.
abbrev begun : String → Regs → Walk
begun base regs = record {
  name = base;
  baseaddr = 0;
  localaddr = 0;
  currentblock = zero_block;
  currentreg = top_register base;
  reg_made = true;
  toplevel = false;
  regs = regs;
}

begun-Ready :
    (out : Outside) (include : Include) (fn : String) (fileaddr : ℕ) (ends : Option Error)
    (base : String) (regs : Regs)
    → Ready out include fn fileaddr ends base (begun base regs) ((base, top_register base) ∷ regs)
unfolding register width_loop split pieces contains lookup_reg
begun-Ready out include fn fileaddr ends base regs = record {
  old = zero_register;
  registers = refl;
  name_is = refl;
  inside = refl;
  reg_depth = λ e. omega arith;
  block_depth = inl refl;
  view = λ k nonempty. ground (arith, eq_iff "" k, eq_iff base k);
}

-- Take a file whose elements are those of an address table without modules: one element whose only
-- attribute is an id, around blocks, these around registers, these around masks. The attributes of
-- these elements stand in any order, with others between them that the code does not look at. Each has
-- one id, which is not empty, has no dot and is not `TOP`; blocks and registers have an address;
-- blocks have `fwinfo`, with a width that can be read where it names one, and no `mask` or `module`
-- behind it; registers have none of these three; masks have `mask`, and none of the other two behind
-- it. Whatever else is between the elements, `parseregfile` reads the file without an error or a panic.
-- Afterwards the entry of each name but the empty one is that of the last block or register of the
-- table with that name: names are joined with dots below the given name, the address of a block is its
-- own and that of the file, the address of a register is its own and that of its block, in 32 bits, a
-- block or register whose mode is `port` does not increment, and a register has its masks. The element
-- around the table counts as a register with the given name and address 0. The entries of other names
-- are the ones of before.
pub parseregfile-table :
    (out : Outside) (fuel : ℕ) (fn base : String) (fileaddr : ℕ) (regs : Regs) (tokens : List Token)
    (top_id : String) (bs : List BlockEntry) (sizes : List ℤ)
    → out.open_file fn ≡ file tokens none
    → elements tokens ≡ table_tokens top_id bs
    → IsTable out bs sizes
    → (regs' : Regs) × (parseregfile out (suc fuel) fn base fileaddr regs ≡ done (regs', none))
      × ((k : String)
          → k ≢ ""
          → lookup_reg k regs'
            ≡ lookup_reg k
                (add_table out base fileaddr bs sizes ((base, top_register base) ∷ regs)))
unfolding parseregfile walk finish_file put_block attributes attribute id_attribute begin_element
    begin_reg
parseregfile-table out fuel fn base fileaddr regs tokens top_id bs sizes opens same t =
    let include = parseregfile out fuel in
    let (w', e, r) =
      blocks-Ready out include fn fileaddr none bs sizes base (end_element ∷ []) (begun base regs) _
        t (begun-Ready out include fn fileaddr none base regs) in
    (
      (w'.currentblock.id, r.old) ∷ (w'.currentreg.name, w'.currentreg) ∷ w'.regs,
      rw opens (
          walk-elements out include fn fileaddr none tokens (first_walk out base regs)
          ∙ ap (λ ts. walk out include fn fileaddr ts none (first_walk out base regs)) same
          ∙ e
          ∙ rw (r.registers) refl),
      r.view,
    )
