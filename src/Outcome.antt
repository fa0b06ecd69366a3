-- ===== src/Outcome.antt =====
-- How a call of the program ends. A Go function that returns an error beside its value has a pair
-- as its value here; `panic` is a run-time panic, and `stuck` says that a loop used up its
-- fuel or that a statement waits for a channel.
use ipbus.Common.{Bool, true, false, if◌then◌else◌, Option, none, some, ◌≡◌, ◌≢◌, refl, subst}

pub data Outcome {ℓ} (A : Type ℓ) : Type ℓ where
  done : A → Outcome A
  panic : Outcome A
  stuck : Outcome A

infixl 5 ◌>>=◌
abbrev pub ◌>>=◌ {ℓ κ} : {A : Type ℓ} {B : Type κ} → Outcome A → (A → Outcome B) → Outcome B
done a >>= f = f a
panic >>= f = panic
stuck >>= f = stuck

-- A call that does not run out of fuel, with what holds of its value if it does not panic either.
abbrev pub OrPanics {ℓ} : {A : Type ℓ} → (A → Type 0) → Outcome A → Type 0
OrPanics P (done a) = P a
OrPanics P panic = Unit
OrPanics P stuck = ⊥

pub OrPanics-bind {ℓ} :
    {A B : Type ℓ} (P : A → Type 0) (Q : B → Type 0) (m : Outcome A) (f : A → Outcome B)
    → OrPanics P m
    → ((a : A) → P a → OrPanics Q (f a))
    → OrPanics Q (m >>= f)
OrPanics-bind P Q (done a) f h k = k a h
OrPanics-bind P Q panic f h k = tt
OrPanics-bind P Q stuck f h k = h

pub OrPanics-if {ℓ} :
    {A : Type ℓ} (P : A → Type 0) (b : Bool) (m n : Outcome A)
    → OrPanics P m
    → OrPanics P n
    → OrPanics P (if b then m else n)
OrPanics-if P true m n h k = h
OrPanics-if P false m n h k = k

pub OrPanics-map {ℓ} :
    {A : Type ℓ} (P Q : A → Type 0) (m : Outcome A)
    → ((a : A) → P a → Q a)
    → OrPanics P m
    → OrPanics Q m
OrPanics-map P Q (done a) f h = f a h
OrPanics-map P Q panic f h = tt
OrPanics-map P Q stuck f h = h

-- The value with the call that returned it.
pub OrPanics-keep {ℓ} :
    {A : Type ℓ} (P Q : A → Type 0) (m : Outcome A)
    → ((a : A) → P a → m ≡ done a → Q a)
    → OrPanics P m
    → OrPanics Q m
OrPanics-keep P Q (done a) f h = f a h refl
OrPanics-keep P Q panic f h = tt
OrPanics-keep P Q stuck f h = h

pub OrPanics-done {ℓ} :
    {A : Type ℓ} (P : A → Type 0) (m : Outcome A) {a : A} → OrPanics P m → m ≡ done a → P a
OrPanics-done P m {a} h e = subst (OrPanics P) e h

pub bind-ne-done {ℓ} :
    {A B : Type ℓ} (P : A → Type 0) (m : Outcome A) (f : A → Outcome B) (b : B)
    → OrPanics P m
    → ((a : A) → P a → f a ≢ done b)
    → (m >>= f) ≢ done b
bind-ne-done P (done a) f b h k = k a h
bind-ne-done P panic f b h k = λ e. cc
bind-ne-done P stuck f b h k = absurd h

-- What was returned in the middle of a computation that returned.
pub bind-done {ℓ} :
    {A B : Type ℓ} (m : Outcome A) (f : A → Outcome B) {b : B}
    → (m >>= f) ≡ done b
    → (a : A) × (m ≡ done a) × (f a ≡ done b)
bind-done (done a) f e = (a, refl, e)
bind-done panic f {b} e = absurd (apart e)
  where
    apart : panic ≡ done b → ⊥
    apart e = cc
bind-done stuck f {b} e = absurd (apart e)
  where
    apart : stuck ≡ done b → ⊥
    apart e = cc

-- An index into a slice: out of range it panics.
abbrev pub or_panic {ℓ} : {A : Type ℓ} → Option A → Outcome A
or_panic none = panic
or_panic (some a) = done a

pub or_panic-OrPanics {ℓ} : {A : Type ℓ} (o : Option A) → OrPanics (λ _. Unit) (or_panic o)
or_panic-OrPanics none = tt
or_panic-OrPanics (some a) = tt

pub never-bind {ℓ} :
    {A B : Type ℓ} (m : Outcome A) (f : A → Outcome B) (b : B)
    → ((a : A) → m ≢ done a)
    → (m >>= f) ≢ done b
never-bind (done a) f b h = absurd (h a refl)
never-bind panic f b h = λ e. cc
never-bind stuck f b h = λ e. cc
