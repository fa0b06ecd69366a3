-- ===== src/IdLog.antt =====
-- hw_stuff.go: `idlog`, a ring of packet ids, and `tracker`, which remembers the last ids only.
pub mod Queue
pub mod Ring
pub mod Effects
pub mod Track
pub mod Ends
pub mod Refine
mod Tests
use ipbus.Common.{
  ℕ, zero, suc, ◌+◌, ◌-◌, ◌%◌, Bool, List, [], ◌∷◌, ◌++◌, Option, none, some, length, set,
  replicate, get_elem?, ltb, ◌==◌, if◌then◌else◌,
}
use ipbus.Outcome.{Outcome, done, panic, stuck, ◌>>=◌, or_panic}
use ipbus.Protocol.{Error, id_zero, idlog_full, idlog_empty}

pub record IdLog : Type 0 where
  pub ids : List ℕ
  pub first : ℕ
  pub n : ℕ
  pub max : ℕ

-- The remainder of a division by zero panics, and so does a write out of range.
unfoldable pub modulo : ℕ → ℕ → Outcome ℕ
modulo a m = if m == 0 then panic else done (a % m)

unfoldable pub store : List ℕ → ℕ → ℕ → Outcome (List ℕ)
store ids i id = if ltb i (length ids) then done (set ids i id) else panic

unfoldable pub new_id_log : ℕ → IdLog
new_id_log size = record { ids = replicate size 0; first = 0; n = 0; max = size }

unfoldable pub add : IdLog → ℕ → Outcome (IdLog × Option Error)
add i id =
    if id == 0
    then done (i, some id_zero)
    else if i.n == i.max
    then done (i, some idlog_full)
    else do
      next ← modulo (i.first + i.n) i.max
      ids ← store i.ids next id
      done (record i { ids = ids; n = i.n + 1 }, none)

unfoldable pub remove : IdLog → Outcome (IdLog × Option Error)
remove i =
    if i.n == 0
    then done (i, some idlog_empty)
    else do first ← modulo (i.first + 1) i.max; done (record i { first = first; n = i.n - 1 }, none)

unfoldable pub oldest : IdLog → Outcome (ℕ × Bool)
oldest i = do id ← or_panic (get_elem? i.ids i.first); done (id, ltb 0 i.n)

unfoldable pub secondoldest : IdLog → Outcome (ℕ × Bool)
secondoldest i = do
  next ← modulo (i.first + 1) i.max
  id ← or_panic (get_elem? i.ids next)
  done (id, ltb 1 i.n)

unfoldable pub newest : IdLog → Outcome (ℕ × Bool)
newest i = do
  newest ← modulo (i.first + i.n) i.max
  id ← or_panic (get_elem? i.ids newest)
  done (id, ltb 0 i.n)

-- The loop of `sorted`, with the number of rounds that are left; `j` counts up.
unfoldable pub sorted_loop : ℕ → IdLog → ℕ → List ℕ → Outcome (List ℕ)
sorted_loop zero i j vals = done vals
sorted_loop (suc k) i j vals = do
  next ← modulo (i.first + j) i.max
  id ← or_panic (get_elem? i.ids next)
  sorted_loop k i (j + 1) (vals ++ (id ∷ []))

unfoldable pub sorted : IdLog → Outcome (List ℕ)
sorted i = sorted_loop i.n i 0 []

pub record Tracker : Type 0 where
  pub ids : List ℕ
  pub index : ℕ
  pub max : ℕ

unfoldable pub new_tracker : ℕ → Tracker
new_tracker size = record { ids = replicate size 0; index = 0; max = size }

unfoldable pub track : Tracker → ℕ → Outcome Tracker
track t id = do
  index ← modulo (t.index + 1) t.max
  ids ← store t.ids index id
  done (record t { index = index; ids = ids })
