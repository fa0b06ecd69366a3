-- ===== src/Strings.antt =====
-- What the source uses of Go's package strings, on ASCII text.
pub mod Laws
use Prim.Native.Char.{Char, code}
use Prim.Native.String.{String, count, ◌++◌ as ◌<>◌}
use text.Mathlib.Text.{starts_with}
use ipbus.Common.{ℕ, zero, suc, Bool, true, false, ◌||◌, List, [], ◌∷◌, ◌==◌, if◌then◌else◌}

-- One character more in front; the flag says whether it is the separator.
abbrev pub grow : Bool → Char → String × List String → String × List String
grow true c (first, rest) = (String.[], first ∷ rest)
grow false c (first, rest) = (String.◌∷◌ c first, rest)

-- The text up to the first separator, and the parts behind it.
unfoldable pub pieces : ℕ → String → String × List String
pieces sep String.[] = (String.[], [])
pieces sep (String.◌∷◌ c s) = grow (code c == sep) c (pieces sep s)

-- `strings.Split` with a separator of one byte
unfoldable pub split : ℕ → String → List String
split sep s = let (first, rest) = pieces sep s in first ∷ rest

-- `strings.Join`
unfoldable pub join : String → List String → String
join sep [] = ""
join sep (x ∷ []) = x
join sep (x ∷ y ∷ rest) = x <> (sep <> join sep (y ∷ rest))

-- `names[:len(names)-1]` and `names[len(names)-1]` of a slice that is not empty
unfoldable pub front : List String → List String
front [] = []
front (x ∷ []) = []
front (x ∷ y ∷ rest) = x ∷ front (y ∷ rest)

unfoldable pub last : List String → String
last [] = ""
last (x ∷ []) = x
last (x ∷ y ∷ rest) = last (y ∷ rest)

-- `strings.Contains`
unfoldable pub contains : String → String → Bool
contains String.[] t = starts_with String.[] t
contains (String.◌∷◌ c s) t = starts_with (String.◌∷◌ c s) t || contains s t

unfoldable pub drop_chars : ℕ → String → String
drop_chars zero s = s
drop_chars (suc n) String.[] = String.[]
drop_chars (suc n) (String.◌∷◌ c s) = drop_chars n s

-- `strings.Replace(s, old, "", 1)`, where `old` is not empty
unfoldable pub remove_first : String → String → String
remove_first old String.[] = String.[]
remove_first old (String.◌∷◌ c s) =
    let rest = remove_first old s in
    if starts_with (String.◌∷◌ c s) old
    then drop_chars (count old) (String.◌∷◌ c s)
    else String.◌∷◌ c rest

-- The name of a part below a name (`if name != ""` in `parseregfile`).
abbrev pub child : String → String → String
child String.[] v = v
child (String.◌∷◌ c s) v = String.◌∷◌ c s <> ("." <> v)

-- The name above a name.
abbrev pub parent : String → String
parent name = join "." (front (split 46 name))
