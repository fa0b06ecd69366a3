-- ===== src/AddressTable/Registers.antt =====
-- The registers of one block, as the walk leaves them.
use Prim.Native.String.{String}
use text.Mathlib.Text.{◌==◌ as str_eq}
use text.Mathlib.TextEquality.{eq_iff}
use ipbus.Common.{
  ℕ, ◌≡◌, ◌≢◌, refl, sym, ap, subst, ◌⊎◌, List, [], ◌∷◌, Option, arith, if◌then◌else◌,
}
use ipbus.Protocol.{Error}
use ipbus.Strings.{child}
use ipbus.Strings.Laws.{IsPart, depth, depth-child}
use ipbus.Register.{Register}
use ipbus.AddressTable.{Outside, Regs, Walk, lookup_reg}
use ipbus.AddressTable.Parse.{Include}
use ipbus.AddressTable.Spec.{MaskEntry, RegEntry, AreRegs, with_mask, with_masks, reg_of, add_regs}
use ipbus.AddressTable.Run.{after_reg, after_regs}

-- A register more, between the pending block and what is there already.
lookup_reg-reg :
    (k b n c : String) (rb r cr : Register) (regs acc : Regs)
    → k ≢ ""
    → b ≢ n
    → lookup_reg k ((b, rb) ∷ (c, cr) ∷ regs) ≡ lookup_reg k acc
    → lookup_reg k ((b, rb) ∷ (n, r) ∷ (if str_eq c "" then regs else (c, cr) ∷ regs))
      ≡ lookup_reg k ((n, r) ∷ acc)
unfolding lookup_reg
lookup_reg-reg k b n c rb r cr regs acc nonempty apart e =
    ground (arith, eq_iff b k, eq_iff n k, eq_iff c k, eq_iff c "")

-- A block more, where the pending register and the pending block have different names.
pub lookup_reg-block :
    (k b o c : String) (rb ro cr : Register) (regs acc : Regs)
    → k ≢ ""
    → (o ≡ "") ⊎ (c ≢ o)
    → lookup_reg k ((o, ro) ∷ (c, cr) ∷ regs) ≡ lookup_reg k acc
    → lookup_reg k ((b, rb) ∷ (c, cr) ∷ (if str_eq o "" then regs else (o, ro) ∷ regs))
      ≡ lookup_reg k ((b, rb) ∷ acc)
unfolding lookup_reg
lookup_reg-block k b o c rb ro cr regs acc nonempty apart e =
    ground (arith, eq_iff b k, eq_iff o k, eq_iff c k, eq_iff o "")

-- Names at different depths are different.
depth-ne : (s t : String) → depth s ≢ depth t → s ≢ t
depth-ne s t h e = h (ap depth e)

-- The pending block, whose register is `rb`, the pending register and the others are as in `acc`.
abbrev pub View : Walk → Register → Regs → Type 0
View w rb acc =
    (k : String)
    → k ≢ ""
    → lookup_reg k ((w.currentblock.id, rb) ∷ (w.currentreg.name, w.currentreg) ∷ w.regs)
      ≡ lookup_reg k acc

module _ (out : Outside) (include : Include) (fn : String) (fileaddr : ℕ)
    (ends : Option Error) where
  with_masks-name : (ms : List MaskEntry) (r : Register) → (with_masks out ms r).name ≡ r.name
  with_masks-name [] r = refl
  with_masks-name (m ∷ ms) r = with_masks-name ms (with_mask out m r)

  reg_of-name :
      (name : String) (addr : ℕ) (r : RegEntry) → (reg_of out name addr r).name ≡ child name r.id
  reg_of-name name addr r = with_masks-name r.masks _

  after_reg-View :
      (w : Walk) (r : RegEntry) (rb : Register) (acc : Regs)
      → w.name ≡ w.currentblock.id
      → IsPart r.id
      → View w rb acc
      → View
          (after_reg out include fn fileaddr ends w r)
          rb
          ((child w.name r.id, reg_of out w.name w.baseaddr r) ∷ acc)
  after_reg-View w r rb acc inside v view k nonempty =
      subst
        (λ n.
          lookup_reg k (
            (w.currentblock.id, rb)
            ∷ (n, reg_of out w.name w.baseaddr r)
            ∷ (if str_eq w.currentreg.name ""
                then w.regs
                else (w.currentreg.name, w.currentreg) ∷ w.regs))
          ≡ lookup_reg k ((child w.name r.id, reg_of out w.name w.baseaddr r) ∷ acc))
        (sym (reg_of-name w.name w.baseaddr r))
        (lookup_reg-reg k w.currentblock.id (child w.name r.id) w.currentreg.name rb
          (reg_of out w.name w.baseaddr r) w.currentreg w.regs acc nonempty
          (depth-ne w.currentblock.id (child w.name r.id)
            (λ e. omega (arith, depth-child w.name r.id v, ap depth inside)))
          (view k nonempty))

  pub after_regs-View :
      (rs : List RegEntry) (w : Walk) (rb : Register) (acc : Regs)
      → w.name ≡ w.currentblock.id
      → AreRegs rs
      → View w rb acc
      → View
          (after_regs out include fn fileaddr ends w rs)
          rb
          (add_regs out w.name w.baseaddr rs acc)
  after_regs-View [] w rb acc inside v view = view
  after_regs-View (r ∷ rs) w rb acc inside (v, _, _, _, _, vs) view =
      after_regs-View rs (after_reg out include fn fileaddr ends w r) rb _ inside vs
        (after_reg-View w r rb acc inside v.0 view)

  -- The name of the pending register is deeper than that of its block, or higher.
  pub after_regs-depth :
      (rs : List RegEntry) (w : Walk) (d : ℕ)
      → depth w.name ≡ d
      → AreRegs rs
      → depth w.currentreg.name ≢ d
      → depth (after_regs out include fn fileaddr ends w rs).currentreg.name ≢ d
  after_regs-depth [] w d inside v h = h
  after_regs-depth (r ∷ rs) w d inside (v, _, _, _, _, vs) h =
      after_regs-depth rs (after_reg out include fn fileaddr ends w r) d inside vs (λ e.
        omega (arith, depth-child w.name r.id v.0, ap depth (reg_of-name w.name w.baseaddr r)))
