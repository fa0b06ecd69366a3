-- ===== src/AddressTable/Run.antt =====
-- The walk over the elements of a table, one equation for each kind.
use Prim.Native.String.{String}
use text.Mathlib.Text.{◌==◌ as str_eq}
use ipbus.Common.{
  ℕ, ◌+◌, ◌≡◌, refl, ap, ◌∙◌, pos, Bool-cases, inl, inr, true, false, List, [], ◌∷◌, Option, u32,
  if◌then◌else◌,
}
use ipbus.Outcome.{done}
use ipbus.Protocol.{Error}
use ipbus.Strings.{child, parent}
use ipbus.Strings.Laws.{parent-child, last-child}
use ipbus.Register.{Register}
use ipbus.AddressTable.{
  Token, start_element, end_element, other, Outside, Walk, zero_element, Regtype, unset, mask, blk,
}
use ipbus.AddressTable.Attributes.{attributes}
use ipbus.AddressTable.Parse.{
  register, put_block, begin_block, begin_reg, begin_mask, begin_element, walk, Include, Parsed,
}
use ipbus.AddressTable.Spec.{
  Attrs, value, kind, HasKey, HasId, MaskEntry, RegEntry, BlockEntry, masks_tokens, regs_tokens,
  blocks_tokens, elements, IsId, AreMasks, AreRegs, number, with_mask, with_masks, reg_of,
  address_of,
}
use ipbus.AddressTable.Read.{element, attributes-HasId, number-HasKey}

module _ (out : Outside) (include : Include) (fn : String) (fileaddr : ℕ)
    (ends : Option Error) where
  -- `walk` on the tokens of this file
  abbrev go : List Token → Walk → Parsed
  go ts w = walk out include fn fileaddr ts ends w

  -- The state behind the attributes of an element.
  abbrev named : String → Attrs → Walk → Walk
  named id attrs w = record w {
    name = child w.name id;
    localaddr = number out "address" w.localaddr attrs;
  }

  -- The beginning of an element, behind its attributes.
  walk-start :
      (id : String) (attrs : Attrs) (ts : List Token) (w : Walk) (k : Regtype)
      → w.toplevel ≡ false
      → IsId id
      → HasId id attrs
      → kind unset attrs ≡ k
      → go (start_element attrs ∷ ts) w
        ≡ begin_element out include fn fileaddr
            (go ts)
            (named id attrs w, element out attrs zero_element)
            k
  unfolding walk
  walk-start id attrs ts w k t v h e =
      ap (λ q. begin_element out include fn fileaddr (go ts) q q.1.regtype)
        (attributes-HasId out id attrs w zero_element t v h)
      ∙ ap
          (begin_element out include fn fileaddr (go ts)
            (named id attrs w, element out attrs zero_element))
          e

  -- The state after a mask, and after some.
  abbrev pub after_mask : Walk → MaskEntry → Walk
  after_mask w m = record w {
    localaddr = number out "address" w.localaddr m.attrs;
    currentreg = with_mask out m w.currentreg;
  }

  abbrev pub after_masks : Walk → List MaskEntry → Walk
  after_masks w [] = w
  after_masks w (m ∷ ms) = after_masks (after_mask w m) ms

  walk-mask :
      (m : MaskEntry) (ts : List Token) (w : Walk)
      → w.toplevel ≡ false
      → w.reg_made ≡ true
      → IsId m.id
      → HasId m.id m.attrs
      → kind unset m.attrs ≡ mask
      → go (start_element m.attrs ∷ end_element ∷ ts) w ≡ go ts (after_mask w m)
  unfolding walk begin_element begin_mask
  walk-mask m ts w t made v h k =
      walk-start m.id m.attrs (end_element ∷ ts) w mask t v h k
      ∙ rw (made, last-child w.name m.id v.0, parent-child w.name m.id v.0) refl

  walk-masks :
      (ms : List MaskEntry) (ts : List Token) (w : Walk)
      → w.toplevel ≡ false
      → w.reg_made ≡ true
      → AreMasks ms
      → go (masks_tokens ms ts) w ≡ go ts (after_masks w ms)
  walk-masks [] ts w t made v = refl
  walk-masks (m ∷ ms) ts w t made (v, h, k, vs) =
      walk-mask m (masks_tokens ms ts) w t made v h k ∙ walk-masks ms ts (after_mask w m) t made vs

  after_masks-kept :
      (ms : List MaskEntry) (w : Walk)
      → after_masks w ms ≡ record w {
        localaddr = (after_masks w ms).localaddr;
        currentreg = with_masks out ms w.currentreg;
      }
  after_masks-kept [] w = refl
  after_masks-kept (m ∷ ms) w = after_masks-kept ms (after_mask w m)

  -- The state behind the beginning of a register.
  abbrev pub in_reg : Walk → RegEntry → Walk
  in_reg w r = record w {
    name = child w.name r.id;
    localaddr = number out "address" w.localaddr r.attrs;
    regs =
        if str_eq w.currentreg.name "" then w.regs else (w.currentreg.name, w.currentreg) ∷ w.regs;
    currentreg = record {
      name = child w.name r.id;
      addr = u32 (w.baseaddr + number out "address" w.localaddr r.attrs);
      masks = [];
      noninc = str_eq (value "mode" "" r.attrs) "port";
      size = pos 1;
      msks = [];
    };
    reg_made = true;
  }

  -- The state after a register, and after some.
  abbrev pub after_reg : Walk → RegEntry → Walk
  after_reg w r = record w {
    localaddr = (after_masks (in_reg w r) r.masks).localaddr;
    regs =
        if str_eq w.currentreg.name "" then w.regs else (w.currentreg.name, w.currentreg) ∷ w.regs;
    currentreg = reg_of out w.name w.baseaddr r;
    reg_made = true;
  }

  abbrev pub after_regs : Walk → List RegEntry → Walk
  after_regs w [] = w
  after_regs w (r ∷ rs) = after_regs (after_reg w r) rs

  walk-reg :
      (r : RegEntry) (ts : List Token) (w : Walk)
      → w.toplevel ≡ false
      → IsId r.id
      → HasId r.id r.attrs
      → kind unset r.attrs ≡ unset
      → HasKey "address" r.attrs
      → AreMasks r.masks
      → go (regs_tokens (r ∷ []) ts) w ≡ go ts (after_reg w r)
  unfolding walk begin_element begin_reg
  walk-reg r ts w t v h k addr vs =
      walk-start r.id r.attrs (masks_tokens r.masks (end_element ∷ ts)) w unset t v h k
      ∙ walk-masks r.masks (end_element ∷ ts) (in_reg w r) t refl vs
      ∙ ap (λ g. go ts (record g { name = parent g.name })) (after_masks-kept r.masks (in_reg w r))
      ∙ ap
          (λ a. go ts (record (after_reg w r) {
            name = parent (child w.name r.id);
            currentreg =
                with_masks out r.masks
                  (record (in_reg w r).currentreg { addr = u32 (w.baseaddr + a) });
          }))
          (number-HasKey out "address" w.localaddr 0 r.attrs addr)
      ∙ ap (λ n. go ts (record (after_reg w r) { name = n })) (parent-child w.name r.id v.0)

  pub walk-regs :
      (rs : List RegEntry) (ts : List Token) (w : Walk)
      → w.toplevel ≡ false
      → AreRegs rs
      → go (regs_tokens rs ts) w ≡ go ts (after_regs w rs)
  walk-regs [] ts w t v = refl
  walk-regs (r ∷ rs) ts w t (v, h, k, addr, vs, rest) =
      walk-reg r (regs_tokens rs ts) w t v h k addr vs ∙ walk-regs rs ts (after_reg w r) t rest

  -- The registers of a block change no more than these components.
  pub after_regs-kept :
      (rs : List RegEntry) (w : Walk)
      → after_regs w rs ≡ record w {
        localaddr = (after_regs w rs).localaddr;
        regs = (after_regs w rs).regs;
        currentreg = (after_regs w rs).currentreg;
        reg_made = (after_regs w rs).reg_made;
      }
  after_regs-kept [] w = refl
  after_regs-kept (r ∷ rs) w = after_regs-kept rs (after_reg w r)

  -- The state at the beginning of a block, where `old` is the register of the block before.
  abbrev pub in_block : Walk → BlockEntry → Register → Walk
  in_block w b old = record w {
    name = child w.name b.id;
    baseaddr = address_of out fileaddr b;
    localaddr = 0;
    currentblock = record {
      id = child w.name b.id;
      address = u32 (address_of out fileaddr b + 0);
      description = value "description" "" b.attrs;
      fwinfo = value "fwinfo" "" b.attrs;
      mode = value "mode" "" b.attrs;
    };
    regs = if str_eq w.currentblock.id "" then w.regs else (w.currentblock.id, old) ∷ w.regs;
  }

  abbrev pub after_block : Walk → BlockEntry → Register → Walk
  after_block w b old = record (after_regs (in_block w b old) b.entries) { name = w.name }

  put_before :
      (w : Walk) (old : Register)
      → register out w.currentblock ≡ done old
      → (if str_eq w.currentblock.id "" then done w.regs else put_block out w.currentblock w.regs)
        ≡ done (if str_eq w.currentblock.id "" then w.regs else (w.currentblock.id, old) ∷ w.regs)
  unfolding put_block
  put_before w old e = elim (Bool-cases (str_eq w.currentblock.id "")) [
    | inl empty ↦ rw empty refl
    | inr block ↦ rw (block, e) refl
  ]

  pub walk-block :
      (b : BlockEntry) (old : Register) (ts : List Token) (w : Walk)
      → w.toplevel ≡ false
      → IsId b.id
      → HasId b.id b.attrs
      → kind unset b.attrs ≡ blk
      → HasKey "address" b.attrs
      → AreRegs b.entries
      → register out w.currentblock ≡ done old
      → go (blocks_tokens (b ∷ []) ts) w ≡ go ts (after_block w b old)
  unfolding walk begin_element begin_block
  walk-block b old ts w t v h k addr vs e =
      walk-start b.id b.attrs (regs_tokens b.entries (end_element ∷ ts)) w blk t v h k
      ∙ rw (put_before w old e, number-HasKey out "address" w.localaddr 0 b.attrs addr)
          (walk-regs b.entries (end_element ∷ ts) (in_block w b old) t vs ∙ ap (go ts) back)
    where
      back :
          record (after_regs (in_block w b old) b.entries) {
            name = parent (after_regs (in_block w b old) b.entries).name;
          }
          ≡ after_block w b old
      back =
          ap (λ n. record (after_regs (in_block w b old) b.entries) { name = n })
            (ap (λ g. parent g.name) (after_regs-kept b.entries (in_block w b old))
              ∙ parent-child w.name b.id v.0)

  -- What is neither the beginning nor the end of an element is passed over.
  pub walk-elements : (ts : List Token) (w : Walk) → go ts w ≡ go (elements ts) w
  unfolding walk
  walk-elements [] w = refl
  walk-elements (other ∷ ts) w = walk-elements ts w
  walk-elements (end_element ∷ ts) w = walk-elements ts (record w { name = parent w.name })
  walk-elements (start_element attrs ∷ ts) w =
      let (w', e) = attributes out attrs (w, zero_element) in
      λ i. begin_element out include fn fileaddr (λ g. walk-elements ts g i) (w', e) e.regtype
