-- ===== src/IdLog/Refine.antt =====
-- The ring of an id log holds a queue: each call answers as the queue does.
use ipbus.Common.{
  ℕ, ◌+◌, ◌-◌, ◌%◌, ◌<◌, ◌≡◌, refl, sym, ap, ◌∙◌, subst, Bool, true, false, Bool-cases, inl, inr,
  List, [], ◌∷◌, some, length, get_elem?, get_or, get_elem?-eq-get_or, arith, ltb, ◌==◌, ==_iff,
  ==_ne,
}
use native.Mathlib.Nat.{mod-lt, add-mod_right}
use ipbus.Outcome.{done}
use ipbus.IdLog.{IdLog, modulo, new_id_log, add, remove, oldest, secondoldest, newest, sorted}
use ipbus.IdLog.Queue.{
  Call, adding, removing, asking_oldest, asking_second, asking_all, call, queue_call, answers,
  queue_answers,
}
use ipbus.IdLog.Ring.{
  Holds, new_id_log-Holds, modulo_lem, store_lem, written, written-Holds, dropped-Holds, oldest_lem,
  sorted_loop_lem,
}

-- A call that answers as the queue does and leaves a log that holds the queue.
pub record Follows (c : Call) (i : IdLog) (q : List ℕ) : Type 0 where
  pub i' : IdLog
  pub returns : call c i ≡ done (i', (queue_call i.max c q).1)
  pub holds : Holds i' (queue_call i.max c q).0
  pub same_max : i'.max ≡ i.max

adding-Follows : (id : ℕ) (i : IdLog) (q : List ℕ) → Holds i q → Follows (adding id) i q
unfolding call queue_call add
adding-Follows id i q v = elim (Bool-cases (id == 0)) [
  | inl z ↦ record { i' = i; returns = rw z refl; holds = rw z v; same_max = refl }
  | inr nz ↦ elim (Bool-cases (i.n == i.max)) [
    | inl full ↦ record {
      i' = i;
      returns = rw (nz, full, length_is full) refl;
      holds = rw (nz, length_is full) v;
      same_max = refl;
    }
    | inr room ↦ record {
      i' = written i id;
      returns =
          rw
            (
              nz,
              room,
              length_is room,
              modulo_lem (i.first + i.n) i.max (omega (arith, v.first_in)),
              store_lem i.ids ((i.first + i.n) % i.max) id (
                  omega (
                    arith,
                    v.size,
                    mod-lt (i.first + i.n) {m = i.max} (omega (arith, v.first_in)),
                  )),
            )
            refl;
      holds = rw (nz, length_is room) (written-Holds i q id v (ground arith));
      same_max = refl;
    }
  ]
]
  where
    length_is : {b : Bool} → (i.n == i.max) ≡ b → (length q == i.max) ≡ b
    length_is e = ap (λ k. k == i.max) v.counted ∙ e

removing-Follows : (i : IdLog) (q : List ℕ) → Holds i q → Follows removing i q
unfolding call queue_call remove
removing-Follows i [] v = record {
  i' = i;
  returns = rw ((==_iff i.n 0).1 (sym v.counted)) refl;
  holds = v;
  same_max = refl;
}
removing-Follows i (x ∷ q) v = record {
  i' = record i { first = (i.first + 1) % i.max; n = i.n - 1 };
  returns =
      rw
        (
          ==_ne i.n 0 (λ e. omega (arith, v.counted)),
          modulo_lem (i.first + 1) i.max (omega (arith, v.first_in)),
        )
        refl;
  holds = dropped-Holds i x q v;
  same_max = refl;
}

stays :
    (c : Call) (i : IdLog) (q : List ℕ)
    → Holds i q
    → (queue_call i.max c q).0 ≡ q
    → call c i ≡ done (i, (queue_call i.max c q).1)
    → Follows c i q
stays c i q v same returned = record {
  i' = i;
  returns = returned;
  holds = subst (Holds i) (sym same) v;
  same_max = refl;
}

-- Any slot of the ring can be read.
read_slot :
    (i : IdLog) (q : List ℕ) (k : ℕ)
    → Holds i q
    → k < i.max
    → get_elem? i.ids k ≡ some (get_or i.ids k 0)
read_slot i q k v l = get_elem?-eq-get_or i.ids k 0 (omega (arith, v.size))

asking_oldest-Follows : (i : IdLog) (q : List ℕ) → Holds i q → Follows asking_oldest i q
unfolding call queue_call oldest
asking_oldest-Follows i [] v =
    stays asking_oldest i [] v refl (rw (read_slot i [] i.first v v.first_in, none_left) refl)
  where
    none_left : ltb 0 i.n ≡ false
    none_left = ground (arith, v.counted)
asking_oldest-Follows i (x ∷ q) v =
    stays asking_oldest i (x ∷ q) v refl (rw (oldest_lem i x q v, some_left) refl)
  where
    some_left : ltb 0 i.n ≡ true
    some_left = ground (arith, v.counted)

asking_second-Follows : (i : IdLog) (q : List ℕ) → Holds i q → Follows asking_second i q
unfolding call queue_call secondoldest
asking_second-Follows i q v = by_length q v
  where
    next : modulo (i.first + 1) i.max ≡ done ((i.first + 1) % i.max)
    next = modulo_lem (i.first + 1) i.max (omega (arith, v.first_in))

    slot : get_elem? i.ids ((i.first + 1) % i.max) ≡ some (get_or i.ids ((i.first + 1) % i.max) 0)
    slot = read_slot i q _ v (mod-lt (i.first + 1) {m = i.max} (omega (arith, v.first_in)))

    few : i.n < 2 → ltb 1 i.n ≡ false
    few h = ground arith

    many : 1 < i.n → ltb 1 i.n ≡ true
    many h = ground arith

    by_length : (q : List ℕ) → Holds i q → Follows asking_second i q
    by_length [] v =
        stays asking_second i [] v refl (rw (next, slot, few (omega (arith, v.counted))) refl)
    by_length (x ∷ []) v =
        stays asking_second i (x ∷ []) v refl (rw (next, slot, few (omega (arith, v.counted))) refl)
    by_length (x ∷ y ∷ q) v =
        stays asking_second i (x ∷ y ∷ q) v refl
          (rw (next, v.slots 1 (omega (arith, v.counted)), many (omega (arith, v.counted))) refl)

asking_all-Follows : (i : IdLog) (q : List ℕ) → Holds i q → Follows asking_all i q
unfolding call queue_call sorted
asking_all-Follows i q v =
    stays asking_all i q v refl (rw (sorted_loop_lem i.n i 0 [] q [] v refl v.counted) refl)

call_lem : (c : Call) (i : IdLog) (q : List ℕ) → Holds i q → Follows c i q
call_lem (adding id) i q v = adding-Follows id i q v
call_lem removing i q v = removing-Follows i q v
call_lem asking_oldest i q v = asking_oldest-Follows i q v
call_lem asking_second i q v = asking_second-Follows i q v
call_lem asking_all i q v = asking_all-Follows i q v

answers_lem :
    (cs : List Call) (i : IdLog) (q : List ℕ)
    → Holds i q
    → answers cs i ≡ done (queue_answers i.max cs q)
unfolding answers
answers_lem [] i q v = refl
answers_lem (c ∷ cs) i q v =
    let f = call_lem c i q v in
    rw (f.returns, answers_lem cs f.i' (queue_call i.max c q).0 f.holds)
      (ap (λ m. done ((queue_call i.max c q).1 ∷ queue_answers m cs (queue_call i.max c q).0))
        f.same_max)

-- Whatever the calls of `add`, `remove`, `oldest`, `secondoldest` and `sorted` on a new id log of
-- some size above 0, none of them panics, and each answers as the same call on a queue that starts
-- empty and holds that many ids at most: `add` refuses the id 0 and any id while the queue is full.
pub answers-new_id_log :
    (cs : List Call) (size : ℕ)
    → 0 < size
    → answers cs (new_id_log size) ≡ done (queue_answers size cs [])
answers-new_id_log cs size h =
    answers_lem cs (new_id_log size) [] (new_id_log-Holds size h)
    ∙ ap (λ m. done (queue_answers m cs [])) (unfold new_id_log in refl)

-- `newest` of a full id log is the oldest id, not the newest: it reads the slot behind the last one.
pub newest-full :
    (i : IdLog) (x : ℕ) (q : List ℕ) → Holds i (x ∷ q) → i.n ≡ i.max → newest i ≡ done (x, true)
unfolding newest
newest-full i x q v full =
    rw
      (
        modulo_lem (i.first + i.n) i.max (omega (arith, v.first_in)),
        ap (λ k. get_elem? i.ids k)
              (ap (λ n. (i.first + n) % i.max) full
                ∙ add-mod_right i.first i.max
                ∙ ap (λ k. k % i.max) {x = i.first} {y = i.first + 0} (omega arith))
            ∙ v.slots 0 (omega (arith, v.counted)),
        some_ids,
      )
      refl
  where
    some_ids : ltb 0 i.n ≡ true
    some_ids = ground (arith, v.counted)
