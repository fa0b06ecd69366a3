-- ===== src/AddressTable/Ends.antt =====
-- `parseregfile` comes to an end where the files of modules do not name each other in a circle.
use Prim.Native.String.{String}
use text.Mathlib.Text.{◌==◌ as str_eq}
use ipbus.Common.{
  ℕ, zero, suc, ◌<◌, ◌≡◌, refl, ℤ, pos, succ, Bool, true, false, List, [], ◌∷◌, Option, none, some,
  arith, if◌then◌else◌,
}
use ipbus.Outcome.{done, panic, or_panic, or_panic-OrPanics, OrPanics, OrPanics-bind, OrPanics-if}
use ipbus.Protocol.{Error}
use ipbus.Strings.{split, contains}
use ipbus.AddressTable.{
  Token, start_element, end_element, other, Opened, not_opened, file, Outside, modfn, Block, Regs,
  Walk, Element, zero_element, Regtype, unset, top, reg, mask, included, blk,
}
use ipbus.AddressTable.Attributes.{id_attribute, attribute, attributes}
use ipbus.AddressTable.Parse.{
  second, width_loop, register, put_block, begin_block, begin_mask, begin_element, finish_file,
  walk, parseregfile, Include, Parsed, first_walk, unless_err, opened,
}

abbrev pub Ends : Parsed → Type 0
Ends = OrPanics (λ _. Unit)

-- The values of the attribute `module`.
abbrev pub Modules : (String → Type 0) → List (String × String) → Type 0
Modules P [] = Unit
Modules P ((n, v) ∷ attrs) = (str_eq n "module" ≡ true → P v) × Modules P attrs

abbrev pub AllModules : (String → Type 0) → List Token → Type 0
AllModules P [] = Unit
AllModules P (start_element attrs ∷ ts) = Modules P attrs × AllModules P ts
AllModules P (_ ∷ ts) = AllModules P ts

-- The file of an element that names one.
Names : (String → Type 0) → Element → Type 0
Names P e = e.regtype ≡ included → P e.included_file

-- A test, by its cases.
if-cases {ℓ} :
    {A : Type ℓ} (Q : A → Type 0) (b : Bool) (x y : A)
    → (b ≡ true → Q x)
    → Q y
    → Q (if b then x else y)
if-cases Q true x y h g = h refl
if-cases Q false x y h g = g

module _ (out : Outside) (P : String → Type 0) where
  attribute-Names :
      (n v : String) (w : Walk) (e : Element)
      → (str_eq n "module" ≡ true → P v)
      → Names P e
      → Names P (attribute out (n, v) (w, e)).1
  unfolding attribute id_attribute Names
  attribute-Names n v w e h g =
      if-cases Q (str_eq n "id") _ _
        (λ _. if-cases Q w.toplevel _ _ (λ _. g) (if-cases Q (str_eq v "TOP") _ _ (λ _ k. cc) g))
        (if-cases Q (str_eq n "address") _ _ (λ _. g)
          (if-cases Q (str_eq n "mask") _ _ (λ _ k. cc)
            (if-cases Q (str_eq n "module") _ _ (λ m _. h m)
              (if-cases Q (str_eq n "description") _ _ (λ _. g)
                (if-cases Q (str_eq n "fwinfo") _ _ (λ _ k. cc)
                  (if-cases Q (str_eq n "mode") _ _ (λ _. g) g))))))
    where
      Q : Walk × Element → Type 0
      Q q = q.1.regtype ≡ included → P q.1.included_file

  attributes-Names :
      (attrs : List (String × String)) (w : Walk) (e : Element)
      → Modules P attrs
      → Names P e
      → Names P (attributes out attrs (w, e)).1
  unfolding attributes
  attributes-Names [] w e m g = g
  attributes-Names ((n, v) ∷ attrs) w e (h, m) g =
      let (w', e') = attribute out (n, v) (w, e) in
      attributes-Names attrs w' e' m (attribute-Names n v w e h g)

width_loop-Ends :
    (out : Outside) (vals : List String) (size : ℤ)
    → OrPanics (λ _. Unit) (width_loop out vals size)
unfolding width_loop
width_loop-Ends out [] size = tt
width_loop-Ends out (v ∷ vals) size =
    OrPanics-if (λ _. Unit) (contains v "width") _ _
      (OrPanics-bind (λ _. Unit) (λ _. Unit) (or_panic (second (split 61 v))) _
        (or_panic-OrPanics (second (split 61 v)))
        (λ n _. width_loop-Ends out vals (succ (out.parse_int n))))
      (width_loop-Ends out vals size)

put_block-Ends :
    (out : Outside) (b : Block) (regs : Regs) → OrPanics (λ _. Unit) (put_block out b regs)
unfolding put_block register
put_block-Ends out b regs =
    OrPanics-bind (λ _. Unit) (λ _. Unit) (register out b) _
      (OrPanics-bind (λ _. Unit) (λ _. Unit) (width_loop out (split 59 b.fwinfo) (pos 0)) _
        (width_loop-Ends out (split 59 b.fwinfo) (pos 0)) (λ _ _. tt))
      (λ _ _. tt)

module _ (out : Outside) (include : Include) (fn : String) (fileaddr : ℕ) where
  -- A file that is named, read by the call for files of modules.
  abbrev IsRead : String → Type 0
  IsRead v =
      (name : String) (addr : ℕ) (regs : Regs) → Ends (include (modfn out fn v) name addr regs)

  begin_element-Ends :
      (go_on : Walk → Parsed) (w : Walk) (e : Element) (t : Regtype)
      → ((w : Walk) → Ends (go_on w))
      → (t ≡ included → IsRead e.included_file)
      → Ends (begin_element out include fn fileaddr go_on (w, e) t)
  unfolding begin_element begin_block begin_mask
  begin_element-Ends go_on w e unset k r = k _
  begin_element-Ends go_on w e reg k r = k _
  begin_element-Ends go_on w e top k r = k _
  begin_element-Ends go_on w e blk k r =
      OrPanics-bind (λ _. Unit) (λ _. Unit) (begin_block out fileaddr w e) go_on
        (OrPanics-bind (λ _. Unit) (λ _. Unit) _ _
          (OrPanics-if (λ _. Unit) (str_eq w.currentblock.id "") (done w.regs)
            (put_block out w.currentblock w.regs) tt (put_block-Ends out w.currentblock w.regs))
          (λ _ _. tt))
        (λ g _. k g)
  begin_element-Ends go_on w e mask k r =
      OrPanics-bind (λ _. Unit) (λ _. Unit) (begin_mask w e) go_on
        (OrPanics-if (λ _. Unit) w.reg_made _ panic tt tt) (λ g _. k g)
  begin_element-Ends go_on w e included k r =
      OrPanics-bind (λ _. Unit) (λ _. Unit) _ _ (r refl w.name _ w.regs) (λ q _. after q)
    where
      after :
          (q : Regs × Option Error) → Ends (unless_err (λ regs. go_on (record w { regs = regs })) q)
      after (regs, some e) = tt
      after (regs, none) = k _

  walk-Ends :
      (ts : List Token) (ends : Option Error) (w : Walk)
      → AllModules IsRead ts
      → Ends (walk out include fn fileaddr ts ends w)
  unfolding walk finish_file
  walk-Ends [] none w m =
      OrPanics-bind (λ _. Unit) (λ _. Unit) (put_block out w.currentblock _) _
        (put_block-Ends out w.currentblock _) (λ _ _. tt)
  walk-Ends [] (some e) w m = tt
  walk-Ends (start_element attrs ∷ ts) ends w (here, m) =
      let (w', e) = attributes out attrs (w, zero_element) in
      begin_element-Ends (walk out include fn fileaddr ts ends) w' e e.regtype
        (λ g. walk-Ends ts ends g m)
        (unfold Names in attributes-Names out IsRead attrs w zero_element here (λ k. cc))
  walk-Ends (end_element ∷ ts) ends w m = walk-Ends ts ends _ m
  walk-Ends (other ∷ ts) ends w m = walk-Ends ts ends w m

-- The files that a file names have a smaller rank.
abbrev pub IsRanked : Outside → (String → ℕ) → Type 0
IsRanked out rank =
    (fn : String) (tokens : List Token) (ends : Option Error)
    → out.open_file fn ≡ file tokens ends
    → AllModules (λ v. rank (modfn out fn v) < rank fn) tokens

map-Modules :
    (P Q : String → Type 0) (attrs : List (String × String))
    → ((v : String) → P v → Q v)
    → Modules P attrs
    → Modules Q attrs
map-Modules P Q [] h m = tt
map-Modules P Q ((n, v) ∷ attrs) h (e, m) = (λ k. h v (e k), map-Modules P Q attrs h m)

map-AllModules :
    (P Q : String → Type 0) (ts : List Token)
    → ((v : String) → P v → Q v)
    → AllModules P ts
    → AllModules Q ts
map-AllModules P Q [] h m = tt
map-AllModules P Q (start_element attrs ∷ ts) h (e, m) =
    (map-Modules P Q attrs h e, map-AllModules P Q ts h m)
map-AllModules P Q (end_element ∷ ts) h m = map-AllModules P Q ts h m
map-AllModules P Q (other ∷ ts) h m = map-AllModules P Q ts h m

-- Let each file have a rank such that the files of the modules that it names have a smaller one, so
-- that no file names itself, directly or through others. Then `parseregfile` comes to an end, by
-- returning, with an error or without, or by a panic: as many nested calls as the rank of the file and
-- one more are enough.
pub parseregfile-Ends :
    (out : Outside) (rank : String → ℕ) (fuel : ℕ) (fn base : String) (fileaddr : ℕ) (regs : Regs)
    → IsRanked out rank
    → rank fn < fuel
    → Ends (parseregfile out fuel fn base fileaddr regs)
unfolding parseregfile
parseregfile-Ends out rank zero fn base fileaddr regs ranked h = absurd (omega arith)
parseregfile-Ends out rank (suc fuel) fn base fileaddr regs ranked h =
    by_file (out.open_file fn) refl (λ sub name addr regs smaller.
      parseregfile-Ends out rank fuel sub name addr regs ranked (omega arith))
  where
    by_file :
        (o : Opened)
        → out.open_file fn ≡ o
        → ((sub name : String) (addr : ℕ) (regs : Regs)
            → rank sub < rank fn
            → Ends (parseregfile out fuel sub name addr regs))
        → Ends (opened out (parseregfile out fuel) fn base fileaddr regs o)
    by_file (not_opened e) o below = tt
    by_file (file tokens ends) o below =
        walk-Ends out (parseregfile out fuel) fn fileaddr tokens ends (first_walk out base regs) (
          map-AllModules (λ v. rank (modfn out fn v) < rank fn)
            (IsRead out (parseregfile out fuel) fn fileaddr) tokens
            (λ v smaller name addr regs. below (modfn out fn v) name addr regs smaller)
            (ranked fn tokens ends o))
