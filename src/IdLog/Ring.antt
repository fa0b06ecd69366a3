-- ===== src/IdLog/Ring.antt =====
-- The ring of an id log: the queue that its slots hold, and what each operation does to it.
use ipbus.Common.{
  ℕ, zero, suc, ◌+◌, ◌-◌, ◌%◌, ◌≤◌, ◌<◌, ◌≡◌, ◌≢◌, refl, sym, ap, ◌∙◌, subst, Bool-cases, inl, inr,
  ◌⊎◌, List, [], ◌∷◌, ◌++◌, some, length, set, length-set, length-append, length-replicate,
  get_elem?, get_elem?-append, append_assoc, append-nil, arith, ltb, ◌==◌, ==_iff,
}
use native.Mathlib.Nat.{mod-eq_of_lt, mod-eq-sub-mod, mod-add-mod, mod-lt}
use ipbus.Outcome.{done}
use ipbus.IdLog.{IdLog, modulo, store, new_id_log, oldest, sorted_loop}

-- The slots from `first` on, around the ring, hold the queue.
pub record Holds (i : IdLog) (q : List ℕ) : Type 0 where
  pub size : length i.ids ≡ i.max
  pub first_in : i.first < i.max
  pub counted : length q ≡ i.n
  pub fits : i.n ≤ i.max
  pub slots : (j : ℕ) → j < i.n → get_elem? i.ids ((i.first + j) % i.max) ≡ get_elem? q j

-- A place in the ring, without a division.
wrap : (a m : ℕ) → 0 < m → a < m + m → ((a < m) × (a % m ≡ a)) ⊎ ((m ≤ a) × (a % m ≡ a - m))
wrap a m p h = elim (Bool-cases (ltb a m)) [
  | inl l ↦ inl (ground arith, mod-eq_of_lt (ground arith))
  | inr l ↦ inr (ground arith, mod-eq-sub-mod (ground arith) ∙ mod-eq_of_lt (ground arith))
]

get_elem?-set_self : (xs : List ℕ) (i v : ℕ) → i < length xs → get_elem? (set xs i v) i ≡ some v
get_elem?-set_self [] i v h = absurd (omega arith)
get_elem?-set_self (x ∷ xs) zero v h = refl
get_elem?-set_self (x ∷ xs) (suc i) v h = get_elem?-set_self xs i v (omega arith)

get_elem?-set_ne : (xs : List ℕ) (i j v : ℕ) → i ≢ j → get_elem? (set xs i v) j ≡ get_elem? xs j
get_elem?-set_ne [] i j v h = refl
get_elem?-set_ne (x ∷ xs) zero zero v h = absurd (h refl)
get_elem?-set_ne (x ∷ xs) zero (suc j) v h = refl
get_elem?-set_ne (x ∷ xs) (suc i) zero v h = refl
get_elem?-set_ne (x ∷ xs) (suc i) (suc j) v h = get_elem?-set_ne xs i j v (λ e. h (ap suc e))

get_elem?-front : (xs ys : List ℕ) (j : ℕ) → j < length xs → get_elem? (xs ++ ys) j ≡ get_elem? xs j
get_elem?-front [] ys j h = absurd (omega arith)
get_elem?-front (x ∷ xs) ys zero h = refl
get_elem?-front (x ∷ xs) ys (suc j) h = get_elem?-front xs ys j (omega arith)

pub modulo_lem : (a m : ℕ) → 0 < m → modulo a m ≡ done (a % m)
unfolding modulo
modulo_lem a m h = ground arith

pub store_lem : (ids : List ℕ) (i id : ℕ) → i < length ids → store ids i id ≡ done (set ids i id)
unfolding store
store_lem ids i id h = ground arith

pub new_id_log-Holds : (size : ℕ) → 0 < size → Holds (new_id_log size) []
unfolding new_id_log
new_id_log-Holds size h = record {
  size = length-replicate size 0;
  first_in = h;
  counted = refl;
  fits = omega arith;
  slots = λ j l. absurd (omega arith);
}

-- The log after `add` has written.
abbrev pub written : IdLog → ℕ → IdLog
written i id = record i { ids = set i.ids ((i.first + i.n) % i.max) id; n = i.n + 1 }

-- Two different offsets below the length of the ring are at different places.
apart :
    (f j n m x y : ℕ)
    → f < m
    → n < m
    → j < n
    → ((f + n < m) × (x ≡ f + n)) ⊎ ((m ≤ f + n) × (x ≡ f + n - m))
    → ((f + j < m) × (y ≡ f + j)) ⊎ ((m ≤ f + j) × (y ≡ f + j - m))
    → x ≢ y
apart f j n m x y hf hn hj (inl (a, b)) (inl (c, d)) e = omega arith
apart f j n m x y hf hn hj (inl (a, b)) (inr (c, d)) e = omega arith
apart f j n m x y hf hn hj (inr (a, b)) (inl (c, d)) e = omega arith
apart f j n m x y hf hn hj (inr (a, b)) (inr (c, d)) e = omega arith

place_ne : (f j n m : ℕ) → f < m → n < m → j < n → (f + n) % m ≢ (f + j) % m
place_ne f j n m hf hn hj =
    apart f j n m ((f + n) % m) ((f + j) % m) hf hn hj (wrap (f + n) m (omega arith) (omega arith))
      (wrap (f + j) m (omega arith) (omega arith))

pub written-Holds :
    (i : IdLog) (q : List ℕ) (id : ℕ)
    → Holds i q
    → i.n ≢ i.max
    → Holds (written i id) (q ++ (id ∷ []))
written-Holds i q id v s = record {
  size = length-set i.ids _ id ∙ v.size;
  first_in = v.first_in;
  counted = omega (arith, length-append q (id ∷ []), v.counted);
  fits = omega (arith, v.fits);
  slots = λ j l. elim (Bool-cases (j == i.n)) [
    | inl e ↦ at_end j ((==_iff j i.n).0 e)
    | inr ne ↦
        get_elem?-set_ne i.ids _ _ id
          (place_ne i.first j i.n i.max v.first_in (omega (arith, v.fits)) (ground arith))
        ∙ v.slots j (ground arith)
        ∙ sym (get_elem?-front q (id ∷ []) j (ground (arith, v.counted)))
  ];
}
  where
    at_end :
        (j : ℕ)
        → j ≡ i.n
        → get_elem? (set i.ids ((i.first + i.n) % i.max) id) ((i.first + j) % i.max)
          ≡ get_elem? (q ++ (id ∷ [])) j
    at_end j e =
        ap (λ k. get_elem? (set i.ids ((i.first + i.n) % i.max) id) ((i.first + k) % i.max)) e
        ∙ get_elem?-set_self i.ids _ id
            (omega (arith, v.size, mod-lt (i.first + i.n) {m = i.max} (omega (arith, v.first_in))))
        ∙ sym (
            ap (λ k. get_elem? (q ++ (id ∷ [])) k) {x = j} {y = length q + 0}
              (omega (arith, v.counted, e))
            ∙ get_elem?-append q (id ∷ []) 0)

pub dropped-Holds :
    (i : IdLog) (x : ℕ) (q : List ℕ)
    → Holds i (x ∷ q)
    → Holds (record i { first = (i.first + 1) % i.max; n = i.n - 1 }) q
dropped-Holds i x q v = record {
  size = v.size;
  first_in = mod-lt (i.first + 1) {m = i.max} (omega (arith, v.first_in));
  counted = omega (arith, v.counted);
  fits = omega (arith, v.fits);
  slots = λ j l.
      ap (λ k. get_elem? i.ids k)
        (mod-add-mod (i.first + 1) i.max j
          ∙ ap (λ k. k % i.max) {x = i.first + 1 + j} {y = i.first + suc j} (omega arith))
      ∙ v.slots (suc j) (omega arith);
}

pub oldest_lem : (i : IdLog) (x : ℕ) (q : List ℕ) → Holds i (x ∷ q) → oldest i ≡ done (x, ltb 0 i.n)
unfolding oldest
oldest_lem i x q v =
    rw
      (ap (λ k. get_elem? i.ids k) {x = i.first} {y = (i.first + 0) % i.max}
          (sym (
            ap (λ k. k % i.max) {x = i.first + 0} {y = i.first} (omega arith)
            ∙ mod-eq_of_lt v.first_in))
        ∙ v.slots 0 (omega (arith, v.counted)))
      refl

pub sorted_loop_lem :
    (k : ℕ) (i : IdLog) (j : ℕ) (front back vals : List ℕ)
    → Holds i (front ++ back)
    → length front ≡ j
    → length back ≡ k
    → sorted_loop k i j vals ≡ done (vals ++ back)
unfolding sorted_loop
sorted_loop_lem zero i j front [] vals v f b = ap done (sym (append-nil vals))
sorted_loop_lem zero i j front (x ∷ back) vals v f b = absurd (omega arith)
sorted_loop_lem (suc k) i j front [] vals v f b = absurd (omega arith)
sorted_loop_lem (suc k) i j front (x ∷ back) vals v f b =
    rw (modulo_lem (i.first + j) i.max (omega (arith, v.first_in)), found)
      (sorted_loop_lem k i (j + 1) (front ++ (x ∷ [])) back (vals ++ (x ∷ []))
          (subst (Holds i) (sym (append_assoc front (x ∷ []) back)) v)
          (omega (arith, length-append front (x ∷ []))) (omega arith)
        ∙ ap done (append_assoc vals (x ∷ []) back))
  where
    found : get_elem? i.ids ((i.first + j) % i.max) ≡ some x
    found =
        v.slots j (omega (arith, v.counted, length-append front (x ∷ back)))
        ∙ ap (λ n. get_elem? (front ++ (x ∷ back)) n) {x = j} {y = length front + 0} (omega arith)
        ∙ get_elem?-append front (x ∷ back) 0
