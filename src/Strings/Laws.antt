-- ===== src/Strings/Laws.antt =====
-- Names that are parts with dots between them.
use Prim.Native.Char.{Char, code, nul}
use Prim.Native.String.{String, ◌++◌ as ◌<>◌}
use ipbus.Common.{
  ℕ, suc, ◌+◌, ◌≡◌, refl, sym, ap, ◌∙◌, Bool, Bool-cases, inl, inr, true, false, List, [], ◌∷◌,
  ◌++◌, ◌==◌, ==_iff, if◌then◌else◌, arith,
}
use text.Mathlib.TextLemmas.{nil-append, cons-append}
use text.Mathlib.TextEquality.{Char-path}
use ipbus.Strings.{grow, pieces, split, join, front, last, child, parent}

-- How many dots are in a text.
unfoldable pub dots : String → ℕ
dots String.[] = 0
dots (String.◌∷◌ c s) = (if code c == 46 then 1 else 0) + dots s

-- 0 for the empty text, else the number of parts.
abbrev pub depth : String → ℕ
depth String.[] = 0
depth (String.◌∷◌ c s) = 1 + dots (String.◌∷◌ c s)

-- A part of a name: not empty, without a dot.
abbrev pub IsPart : String → Type 0
IsPart v = depth v ≡ 1

pieces-plain : (v : String) → dots v ≡ 0 → pieces 46 v ≡ (v, [])
unfolding pieces dots
pieces-plain String.[] h = refl
pieces-plain (String.◌∷◌ c v) h = elim (Bool-cases (code c == 46)) [
  | inl dot ↦ absurd (no_dot (code c == 46) (dots v) h dot)
  | inr other ↦ rw (other, pieces-plain v (none_left (code c == 46) (dots v) h)) refl
]
  where
    none_left : (b : Bool) (n : ℕ) → (if b then 1 else 0) + n ≡ 0 → n ≡ 0
    none_left b n e = ground arith

    no_dot : (b : Bool) (n : ℕ) → (if b then 1 else 0) + n ≡ 0 → b ≡ true → ⊥
    no_dot b n e t = ground arith

add_piece :
    (b : Bool) (c : Char) (q : String × List String) (v : String)
    → grow b c (q.0, q.1 ++ (v ∷ [])) ≡ ((grow b c q).0, (grow b c q).1 ++ (v ∷ []))
add_piece true c q v = refl
add_piece false c q v = refl

abbrev head_or : Char → String → Char
head_or c String.[] = c
head_or c (String.◌∷◌ d s) = d

dot-append : (v : String) → "." <> v ≡ String.◌∷◌ (head_or nul ".") v
dot-append v = cons-append (head_or nul ".") "" v ∙ ap (String.◌∷◌ (head_or nul ".")) (nil-append v)

pieces-append :
    (s v : String)
    → dots v ≡ 0
    → pieces 46 (s <> ("." <> v)) ≡ ((pieces 46 s).0, (pieces 46 s).1 ++ (v ∷ []))
unfolding pieces
pieces-append String.[] v h =
    ap (pieces 46) (nil-append ("." <> v) ∙ dot-append v)
    ∙ ap (λ q. (String.[], q.0 ∷ q.1)) (pieces-plain v h)
pieces-append (String.◌∷◌ c s) v h =
    ap (pieces 46) (cons-append c s ("." <> v))
    ∙ ap (grow (code c == 46) c) (pieces-append s v h)
    ∙ add_piece (code c == 46) c (pieces 46 s) v

split-child : (s v : String) → dots v ≡ 0 → split 46 (s <> ("." <> v)) ≡ split 46 s ++ (v ∷ [])
unfolding split
split-child s v h = ap (λ q. q.0 ∷ q.1) (pieces-append s v h)

join-grow :
    (b : Bool) (c : Char) (q : String × List String) (t : String)
    → (b ≡ true → String.◌∷◌ c "" ≡ ".")
    → join "." (q.0 ∷ q.1) ≡ t
    → join "." ((grow b c q).0 ∷ (grow b c q).1) ≡ String.◌∷◌ c t
unfolding join
join-grow true c (first, rest) t is_dot e =
    nil-append ("." <> join "." (first ∷ rest))
    ∙ ap (λ u. "." <> u) e
    ∙ sym (ap (λ d. d <> t) (is_dot refl))
    ∙ cons-append c "" t
    ∙ ap (String.◌∷◌ c) (nil-append t)
join-grow false c (first, []) t is_dot e = ap (String.◌∷◌ c) e
join-grow false c (first, x ∷ rest) t is_dot e =
    cons-append c first ("." <> join "." (x ∷ rest)) ∙ ap (String.◌∷◌ c) e

join-split : (s : String) → join "." (split 46 s) ≡ s
unfolding split pieces
join-split String.[] = unfold join in refl
join-split (String.◌∷◌ c s) =
    join-grow (code c == 46) c (pieces 46 s) s
      (λ e. ap (λ d. String.◌∷◌ d "") (Char-path c (head_or nul ".") ((==_iff (code c) 46).0 e)))
      (join-split s)

front-append : (xs : List String) (v : String) → front (xs ++ (v ∷ [])) ≡ xs
unfolding front
front-append [] v = refl
front-append (x ∷ []) v = refl
front-append (x ∷ y ∷ xs) v = ap (λ l. x ∷ l) (front-append (y ∷ xs) v)

last-append : (xs : List String) (v : String) → last (xs ++ (v ∷ [])) ≡ v
unfolding last
last-append [] v = refl
last-append (x ∷ []) v = refl
last-append (x ∷ y ∷ xs) v = last-append (y ∷ xs) v

depth-dots : (v : String) → IsPart v → dots v ≡ 0
depth-dots String.[] h = absurd (omega arith)
depth-dots (String.◌∷◌ c v) h = omega arith

-- The last part of a name below another, and the name above it.
pub parent-child : (s v : String) → IsPart v → parent (child s v) ≡ s
parent-child String.[] v h =
    unfold split front join in
    ap (λ q. join "." (front (q.0 ∷ q.1))) (pieces-plain v (depth-dots v h))
parent-child (String.◌∷◌ c s) v h =
    ap (λ l. join "." (front l)) (split-child (String.◌∷◌ c s) v (depth-dots v h))
    ∙ ap (join ".") (front-append (split 46 (String.◌∷◌ c s)) v)
    ∙ join-split (String.◌∷◌ c s)

pub last-child : (s v : String) → IsPart v → last (split 46 (child s v)) ≡ v
last-child String.[] v h =
    unfold split last in ap (λ q. last (q.0 ∷ q.1)) (pieces-plain v (depth-dots v h))
last-child (String.◌∷◌ c s) v h =
    ap last (split-child (String.◌∷◌ c s) v (depth-dots v h))
    ∙ last-append (split 46 (String.◌∷◌ c s)) v

dots-append : (s t : String) → dots (s <> t) ≡ dots s + dots t
unfolding dots
dots-append String.[] t = omega (arith, ap dots (nil-append t))
dots-append (String.◌∷◌ c s) t = omega (arith, ap dots (cons-append c s t), dots-append s t)

pub depth-child : (s v : String) → IsPart v → depth (child s v) ≡ suc (depth s)
depth-child String.[] v h = h
depth-child (String.◌∷◌ c s) v h =
    ap depth (cons-append c s ("." <> v))
    ∙ ap (λ t. 1 + dots t) (sym (cons-append c s ("." <> v)))
    ∙ count
  where
    below : dots ("." <> v) ≡ 1 + dots v
    below = dots-append "." v ∙ ap (λ n. n + dots v) (unfold dots in refl)

    count : 1 + dots (String.◌∷◌ c s <> ("." <> v)) ≡ suc (1 + dots (String.◌∷◌ c s))
    count = omega (arith, dots-append (String.◌∷◌ c s) ("." <> v), below, depth-dots v h)
