-- ===== src/AddressTable/Read.antt =====
-- The attributes of an element, read in their order, by what they are in any order.
use Prim.Native.String.{String}
use text.Mathlib.Text.{◌==◌ as str_eq}
use text.Mathlib.TextEquality.{eq_iff}
use ipbus.Common.{ℕ, ◌≡◌, refl, sym, ap, subst, ◌∙◌, Bool-cases, inl, inr, false, [], ◌∷◌}
use ipbus.Strings.{child}
use ipbus.AddressTable.{Outside, Walk, Element}
use ipbus.AddressTable.Attributes.{id_attribute, attribute, attributes}
use ipbus.AddressTable.Spec.{Attrs, value, kind, HasKey, NoKey, HasId, IsId, number}

module _ (out : Outside) where
  -- The variables of an element behind some attributes.
  abbrev pub element : Attrs → Element → Element
  element attrs e = record {
    regtype = kind e.regtype attrs;
    included_file = value "module" e.included_file attrs;
    description = value "description" e.description attrs;
    fwinfo = value "fwinfo" e.fwinfo attrs;
    mode = value "mode" e.mode attrs;
    mask_value = number out "mask" e.mask_value attrs;
  }

  abbrev one : String → String → Walk × Element → Walk × Element
  one n v (w, e) = (
    record w { localaddr = number out "address" w.localaddr ((n, v) ∷ []) },
    element ((n, v) ∷ []) e,
  )

  -- One attribute that is not an id.
  attribute-one :
      (n v : String) (w : Walk) (e : Element)
      → str_eq n "id" ≡ false
      → attribute out (n, v) (w, e) ≡ one n v (w, e)
  unfolding attribute
  attribute-one n v w e not_id = by_name "address" refl (λ a. by_name "mask" refl (λ m.
      by_name "module" refl (λ o. by_name "description" refl (λ d.
        by_name "fwinfo" refl
          (λ f. by_name "mode" refl (λ k. rw (not_id, a, m, o, d, f, k) refl))))))
    where
      by_name :
          (k : String)
          → attribute out (k, v) (w, e) ≡ one k v (w, e)
          → (str_eq n k ≡ false → attribute out (n, v) (w, e) ≡ one n v (w, e))
          → attribute out (n, v) (w, e) ≡ one n v (w, e)
      by_name k here there = elim (Bool-cases (str_eq n k)) [
        | inl same ↦
            subst (λ m. attribute out (m, v) (w, e) ≡ one m v (w, e)) (sym ((eq_iff n k).0 same))
              here
        | inr other ↦ there other
      ]

  attributes-NoKey :
      (attrs : Attrs) (w : Walk) (e : Element)
      → NoKey "id" attrs
      → attributes out attrs (w, e)
        ≡ (record w { localaddr = number out "address" w.localaddr attrs }, element attrs e)
  unfolding attributes
  attributes-NoKey [] w e h = refl
  attributes-NoKey ((n, v) ∷ attrs) w e (h, hs) =
      ap (attributes out attrs) (attribute-one n v w e h)
      ∙ attributes-NoKey attrs (one n v (w, e)).0 (one n v (w, e)).1 hs

  attribute-id :
      (n x id : String) (w : Walk) (e : Element)
      → w.toplevel ≡ false
      → IsId id
      → n ≡ "id"
      → x ≡ id
      → attribute out (n, x) (w, e) ≡ (record w { name = child w.name id }, e)
  unfolding attribute id_attribute
  attribute-id n x id w e t v here same = rw (here, same, t, v.1) refl

  -- The attributes of an element with an id.
  pub attributes-HasId :
      (id : String) (attrs : Attrs) (w : Walk) (e : Element)
      → w.toplevel ≡ false
      → IsId id
      → HasId id attrs
      → attributes out attrs (w, e) ≡ (
        record w { name = child w.name id; localaddr = number out "address" w.localaddr attrs },
        element attrs e,
      )
  unfolding attributes
  attributes-HasId id [] w e t v h = absurd h
  attributes-HasId id ((n, x) ∷ attrs) w e t v (inl (here, same, others)) =
      ap (attributes out attrs) (attribute-id n x id w e t v here same)
      ∙ attributes-NoKey attrs (record w { name = child w.name id }) e others
      ∙ sym (unread n here)
    where
      unread :
          (n : String)
          → n ≡ "id"
          → ◌≡◌ {A = Walk × Element}
              (
                record w {
                  name = child w.name id;
                  localaddr = number out "address" w.localaddr ((n, x) ∷ attrs);
                },
                element ((n, x) ∷ attrs) e,
              )
              (
                record w {
                  name = child w.name id;
                  localaddr = number out "address" w.localaddr attrs;
                },
                element attrs e,
              )
      unread n here = rw here refl
  attributes-HasId id ((n, x) ∷ attrs) w e t v (inr (other, h)) =
      ap (attributes out attrs) (attribute-one n x w e other)
      ∙ attributes-HasId id attrs (one n x (w, e)).0 (one n x (w, e)).1 t v h

  -- With an attribute `k`, its number does not depend on anything else.
  pub number-HasKey :
      (k : String) (a b : ℕ) (attrs : Attrs)
      → HasKey k attrs
      → number out k a attrs ≡ number out k b attrs
  number-HasKey k a b [] h = absurd h
  number-HasKey k a b ((n, v) ∷ attrs) (inl here) = rw here refl
  number-HasKey k a b ((n, v) ∷ attrs) (inr (other, h)) = rw other (number-HasKey k a b attrs h)
