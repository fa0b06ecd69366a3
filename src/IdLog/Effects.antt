-- ===== src/IdLog/Effects.antt =====
-- The calls of an id log that holds a queue, by what the queue is, for the code that makes them.
use ipbus.Common.{
  ℕ, ◌+◌, ◌-◌, ◌%◌, ◌≤◌, ◌<◌, ◌≡◌, ◌≢◌, refl, true, false, List, [], ◌∷◌, ◌++◌, none, some, length,
  get_or, get_elem?-eq-get_or, arith, ltb, ◌==◌, ==_ne,
}
use native.Mathlib.Nat.{mod-lt}
use ipbus.Outcome.{Outcome, done}
use ipbus.Protocol.{idlog_full}
use ipbus.IdLog.{secondoldest, IdLog, add, remove, oldest}
use ipbus.IdLog.Ring.{
  Holds, modulo_lem, store_lem, written, written-Holds, dropped-Holds, oldest_lem,
}

-- A log that holds a queue, with the capacity of another.
pub record Becomes {ℓ} {E : Type ℓ} (m : ℕ) (out : Outcome (IdLog × E)) (e : E) (q : List ℕ)
    : Type ℓ where
  pub i' : IdLog
  pub returns : out ≡ done (i', e)
  pub holds : Holds i' q
  pub same_max : i'.max ≡ m

pub add-Becomes :
    (i : IdLog) (q : List ℕ) (id : ℕ)
    → Holds i q
    → id ≢ 0
    → length q < i.max
    → Becomes i.max (add i id) none (q ++ (id ∷ []))
unfolding add
add-Becomes i q id v nz room = record {
  i' = written i id;
  returns =
      rw
        (
          ==_ne id 0 nz,
          ==_ne i.n i.max (λ e. omega (arith, v.counted)),
          modulo_lem (i.first + i.n) i.max (omega (arith, v.first_in)),
          store_lem i.ids ((i.first + i.n) % i.max) id (
              omega
                (arith, v.size, mod-lt (i.first + i.n) {m = i.max} (omega (arith, v.first_in)))),
        )
        refl;
  holds = written-Holds i q id v (λ e. omega (arith, v.counted));
  same_max = refl;
}

pub add_full :
    (i : IdLog) (q : List ℕ) (id : ℕ)
    → Holds i q
    → id ≢ 0
    → i.max ≤ length q
    → add i id ≡ done (i, some idlog_full)
unfolding add
add_full i q id v nz full =
    let is_full : (i.n == i.max) ≡ true = ground (arith, v.counted, v.fits) in
    rw (==_ne id 0 nz, is_full) refl

pub remove-Becomes :
    (i : IdLog) (x : ℕ) (q : List ℕ) → Holds i (x ∷ q) → Becomes i.max (remove i) none q
unfolding remove
remove-Becomes i x q v = record {
  i' = record i { first = (i.first + 1) % i.max; n = i.n - 1 };
  returns =
      rw
        (
          ==_ne i.n 0 (λ e. omega (arith, v.counted)),
          modulo_lem (i.first + 1) i.max (omega (arith, v.first_in)),
        )
        refl;
  holds = dropped-Holds i x q v;
  same_max = refl;
}

pub oldest_some : (i : IdLog) (x : ℕ) (q : List ℕ) → Holds i (x ∷ q) → oldest i ≡ done (x, true)
oldest_some i x q v = rw (oldest_lem i x q v, some_left) refl
  where
    some_left : ltb 0 i.n ≡ true
    some_left = ground (arith, v.counted)

-- The oldest id of an empty log is whatever the slot holds, and it is marked so.
pub oldest_none : (i : IdLog) → Holds i [] → oldest i ≡ done (get_or i.ids i.first 0, false)
unfolding oldest
oldest_none i v =
    rw (get_elem?-eq-get_or i.ids i.first 0 (omega (arith, v.size, v.first_in)), none_left) refl
  where
    none_left : ltb 0 i.n ≡ false
    none_left = ground (arith, v.counted)

pub secondoldest_some :
    (i : IdLog) (x y : ℕ) (q : List ℕ) → Holds i (x ∷ y ∷ q) → secondoldest i ≡ done (y, true)
unfolding secondoldest
secondoldest_some i x y q v =
    let two_left : ltb 1 i.n ≡ true = ground (arith, v.counted) in
    rw
      (
        modulo_lem (i.first + 1) i.max (omega (arith, v.first_in)),
        v.slots 1 (omega (arith, v.counted)),
        two_left,
      )
      refl
