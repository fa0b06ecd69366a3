-- ===== src/IdLog/Track.antt =====
-- A tracker never panics.
use ipbus.Common.{
  ℕ, ◌+◌, ◌%◌, ◌≡◌, ◌<◌, refl, set, length, length-set, ◌∙◌, arith, length-replicate,
}
use native.Mathlib.Nat.{mod-lt}
use ipbus.Outcome.{done}
use ipbus.IdLog.{Tracker, track, new_tracker}
use ipbus.IdLog.Ring.{modulo_lem, store_lem}

pub record IsTracker (t : Tracker) : Type 0 where
  pub size : length t.ids ≡ t.max
  pub some_places : 0 < t.max

pub record Tracks (t : Tracker) (id : ℕ) : Type 0 where
  pub t' : Tracker
  pub returns : track t id ≡ done t'
  pub valid : IsTracker t'

pub track_lem : (t : Tracker) (id : ℕ) → IsTracker t → Tracks t id
unfolding track
track_lem t id v =
    let i = (t.index + 1) % t.max in
    record {
      t' = record t { index = i; ids = set t.ids i id };
      returns =
          rw
            (
              modulo_lem (t.index + 1) t.max v.some_places,
              store_lem t.ids i id
                  (omega (arith, v.size, mod-lt (t.index + 1) {m = t.max} v.some_places)),
            )
            refl;
      valid = record { size = length-set t.ids i id ∙ v.size; some_places = v.some_places };
    }

pub new_tracker-IsTracker : (size : ℕ) → 0 < size → IsTracker (new_tracker size)
unfolding new_tracker
new_tracker-IsTracker size h = record { size = length-replicate size 0; some_places = h }
