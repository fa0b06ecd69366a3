-- ===== src/IdLog/Ends.antt =====
-- The calls of an id log, whatever its state, come to an end: they return or panic.
use ipbus.Common.{ℕ, ◌+◌, ◌%◌, set, ltb, length, List, get_elem?, ◌==◌}
use ipbus.Outcome.{done, panic, or_panic, OrPanics, OrPanics-bind, OrPanics-if, or_panic-OrPanics}
use ipbus.IdLog.{IdLog, Tracker, modulo, store, track, oldest, secondoldest}

pub modulo-OrPanics : (a m : ℕ) → OrPanics (λ _. Unit) (modulo a m)
unfolding modulo
modulo-OrPanics a m = OrPanics-if (λ _. Unit) (m == 0) panic (done (a % m)) tt tt

pub store-OrPanics : (ids : List ℕ) (i id : ℕ) → OrPanics (λ _. Unit) (store ids i id)
unfolding store
store-OrPanics ids i id =
    OrPanics-if (λ _. Unit) (ltb i (length ids)) (done (set ids i id)) panic tt tt

pub track-OrPanics : (t : Tracker) (id : ℕ) → OrPanics (λ _. Unit) (track t id)
unfolding track
track-OrPanics t id =
    OrPanics-bind (λ _. Unit) (λ _. Unit) (modulo (t.index + 1) t.max) _
      (modulo-OrPanics (t.index + 1) t.max)
      (λ i _.
        OrPanics-bind (λ _. Unit) (λ _. Unit) (store t.ids i id) _ (store-OrPanics t.ids i id)
          (λ ids _. tt))

pub secondoldest-OrPanics : (i : IdLog) → OrPanics (λ _. Unit) (secondoldest i)
unfolding secondoldest
secondoldest-OrPanics i =
    OrPanics-bind (λ _. Unit) (λ _. Unit) (modulo (i.first + 1) i.max) _
      (modulo-OrPanics (i.first + 1) i.max)
      (λ k _.
        OrPanics-bind (λ _. Unit) (λ _. Unit) (or_panic (get_elem? i.ids k)) _
          (or_panic-OrPanics (get_elem? i.ids k)) (λ id _. tt))

pub oldest-OrPanics : (i : IdLog) → OrPanics (λ _. Unit) (oldest i)
unfolding oldest
oldest-OrPanics i =
    OrPanics-bind (λ _. Unit) (λ _. Unit) (or_panic (get_elem? i.ids i.first))
      (λ id. done (id, ltb 0 i.n)) (or_panic-OrPanics (get_elem? i.ids i.first)) (λ id _. tt)
