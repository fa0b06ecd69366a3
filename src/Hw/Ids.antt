-- ===== src/Hw/Ids.antt =====
-- Packet ids in a line: 1 to 65535, each followed by the next one, and 65535 by 1. A line that is
-- shorter than a whole turn has no id twice.
use ipbus.Common.{
  ℕ, suc, ◌+◌, ◌-◌, ◌%◌, ◌≤◌, ◌<◌, ◌≡◌, ◌≢◌, refl, sym, ap, ap₂, ◌∙◌, ==_ne, Bool, true, false,
  ◌||◌, List, [], ◌∷◌, ◌++◌, length, arith, ◌==◌, ==_iff, if◌then◌else◌,
}

abbrev pub mem : List ℕ → ℕ → Bool
mem [] k = false
mem (x ∷ xs) k = x == k || mem xs k

pub mem-append : (xs ys : List ℕ) (k : ℕ) → mem (xs ++ ys) k ≡ (mem xs k || mem ys k)
mem-append [] ys k = refl
mem-append (x ∷ xs) ys k = ground (arith, mem-append xs ys k)

-- An id that is none of some ids, under another name.
pub mem-eq : (xs : List ℕ) (x k : ℕ) → (x == k) ≡ true → mem xs x ≡ false → mem xs k ≡ false
mem-eq xs x k e h = ap (mem xs) (sym ((==_iff x k).0 e)) ∙ h

abbrev pub IsId : ℕ → Type 0
IsId x = (0 < x) × (x ≤ 65535)

abbrev pub follow : ℕ → ℕ
follow x = if x == 65535 then 1 else x + 1

-- The first of some ids, or the one that stands behind them.
abbrev pub first_or : ℕ → List ℕ → ℕ
first_or next [] = next
first_or next (x ∷ xs) = x

-- Ids in a line, with `next` behind them.
abbrev pub InLine : List ℕ → ℕ → Type 0
InLine [] next = IsId next
InLine (x ∷ xs) next = IsId x × (first_or next xs ≡ follow x) × InLine xs next

pub first_or-IsId : (xs : List ℕ) (next : ℕ) → InLine xs next → IsId (first_or next xs)
first_or-IsId [] next h = h
first_or-IsId (x ∷ xs) next h = h.0

pub next-IsId : (xs : List ℕ) (next : ℕ) → InLine xs next → IsId next
next-IsId [] next h = h
next-IsId (x ∷ xs) next (_, _, h) = next-IsId xs next h

pub InLine-append :
    (xs : List ℕ) (next : ℕ) → InLine xs next → InLine (xs ++ (next ∷ [])) (follow next)
InLine-append [] next h = (h, refl, follow-IsId h)
  where
    follow-IsId : IsId next → IsId (follow next)
    follow-IsId v = ground arith
InLine-append (x ∷ xs) next (v, e, h) = (v, first_stays xs ∙ e, InLine-append xs next h)
  where
    first_stays : (xs : List ℕ) → first_or (follow next) (xs ++ (next ∷ [])) ≡ first_or next xs
    first_stays [] = refl
    first_stays (y ∷ ys) = refl

-- The id `d` places behind `x`.
abbrev at : ℕ → ℕ → ℕ
at x d = (x - 1 + d) % 65535 + 1

follow-at : (x y d : ℕ) → IsId x → y ≡ at x d → follow y ≡ at x (d + 1)
follow-at x y d v e = ground arith

at-ne : (x y d : ℕ) → IsId x → y ≡ at x d → 0 < d → d < 65535 → y ≢ x
at-ne x y d v e p l q = omega arith

-- Ids that start `d` places behind `x` and end before a whole turn.
mem-at :
    (xs : List ℕ) (next x d : ℕ)
    → InLine xs next
    → IsId x
    → first_or next xs ≡ at x d
    → 0 < d
    → d + length xs ≤ 65535
    → mem xs x ≡ false
mem-at [] next x d h v e p l = refl
mem-at (y ∷ ys) next x d (w, e', h) v e p l =
    ap₂ ◌||◌ (==_ne y x (at-ne x y d v e p (omega arith)))
      (mem-at ys next x (d + 1) h v (e' ∙ follow-at x y d v e) (omega arith) (omega arith))

next-at : (xs : List ℕ) (next : ℕ) → InLine xs next → next ≡ at (first_or next xs) (length xs)
next-at [] next h = omega arith
next-at (x ∷ xs) next (v, e, h) = turn x (first_or next xs) (length xs) next v e (next-at xs next h)
  where
    turn : (x y n next : ℕ) → IsId x → y ≡ follow x → next ≡ at y n → next ≡ at x (suc n)
    turn x y n next v e h = ground arith

-- The next id is none of those in line.
pub next_fresh : (xs : List ℕ) (next : ℕ) → InLine xs next → length xs < 65535 → mem xs next ≡ false
next_fresh xs next h l =
    mem-at xs next next (65535 - length xs) h (next-IsId xs next h)
      (back (first_or next xs) (length xs) (first_or-IsId xs next h) l (next-at xs next h))
      (omega arith) (omega arith)
  where
    back : (y n : ℕ) → IsId y → n < 65535 → next ≡ at y n → y ≡ at next (65535 - n)
    back y n v l e = omega arith

-- The ids in line are distinct: one in the middle is neither before nor behind itself.
pub InLine-distinct :
    (xs ys : List ℕ) (x next : ℕ)
    → InLine (xs ++ (x ∷ ys)) next
    → length (xs ++ (x ∷ ys)) ≤ 65535
    → (mem xs x ≡ false) × (mem ys x ≡ false)
InLine-distinct [] ys x next (v, e, h) l =
    (refl, mem-at ys next x 1 h v (e ∙ follow-at x x 0 v (omega arith)) (omega arith) (omega arith))
InLine-distinct (y ∷ xs) ys x next (v, e, h) l =
    let (front, back) = InLine-distinct xs ys x next h (omega arith) in
    (
      ground (
        arith,
        front,
        mem-at (xs ++ (x ∷ ys)) next y 1 h v (e ∙ follow-at y y 0 v (omega arith)) (omega arith)
            (omega arith),
        mem-append xs (x ∷ ys) y,
      ),
      back,
    )
