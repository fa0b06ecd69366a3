-- ===== src/Hw/Run/Timer.antt =====
-- The timer: a step that sets it changes nothing else, and never runs for ever.
use ipbus.Common.{ℕ, ◌≡◌, refl, Bool, true, false, ltb, ◌==◌}
use ipbus.Outcome.{done, panic, ◌>>=◌, OrPanics, OrPanics-bind, OrPanics-if, OrPanics-map}
use ipbus.IdLog
use ipbus.IdLog.{IdLog, Tracker, track, secondoldest}
use ipbus.IdLog.Ends.{secondoldest-OrPanics, oldest-OrPanics}
use ipbus.PacketLog.{get}
use ipbus.Hw.{Hw, Ticker, stopped, new_ticker}
use ipbus.Hw.Timeout.{time_left, restart, updatetimeout}
use ipbus.Hw.Run.{oldest_answered}

-- The state with another timer.
pub record Retimed (h h' : Hw) : Type 0 where
  pub timer : Ticker
  pub id : ℕ
  pub same : h' ≡ record h { timedout = timer; timeoutid = id }

restart-Retimed :
    (now : ℕ) (h : Hw) (first : ℕ) (b : Bool) → OrPanics (Retimed h) (restart now h (first, b))
unfolding restart new_ticker
restart-Retimed now h first false = record { timer = h.timedout; id = h.timeoutid; same = refl }
restart-Retimed now h first true =
    OrPanics-bind (λ _. Unit) (Retimed h) (new_ticker left) _
      (OrPanics-if (λ _. Unit) (left == 0) panic (done (Ticker.every left)) tt tt)
      (λ timer _. record { timer = timer; id = first; same = refl })
  where
    left : ℕ
    left = time_left now h.waittime (get h.flying first)

pub updatetimeout-Retimed : (now : ℕ) (h : Hw) → OrPanics (Retimed h) (updatetimeout now h)
unfolding updatetimeout
updatetimeout-Retimed now h =
    OrPanics-if (Retimed h) (ltb 0 h.inflight) (secondoldest h.flyingids >>= restart now h)
      (done (record h { timedout = stopped }))
      (OrPanics-bind (λ _. Unit) (Retimed h) (secondoldest h.flyingids) (restart now h)
        (secondoldest-OrPanics h.flyingids) (λ r _. restart-Retimed now h r.0 r.1))
      (record { timer = stopped; id = h.timeoutid; same = refl })

pub oldest_answered-Retimed :
    (now id : ℕ) (h : Hw) → OrPanics (Retimed h) (oldest_answered now id h)
unfolding oldest_answered
oldest_answered-Retimed now id h =
    OrPanics-bind (λ _. Unit) (Retimed h) (IdLog.oldest h.flyingids) _ (oldest-OrPanics h.flyingids)
      (λ r _.
        OrPanics-if (Retimed h) (id == r.0) (updatetimeout now (record h { timedout = stopped }))
          (done h)
          (OrPanics-map (Retimed (record h { timedout = stopped })) (Retimed h)
            (updatetimeout now (record h { timedout = stopped }))
            (λ h' t. record { timer = t.timer; id = t.id; same = t.same })
            (updatetimeout-Retimed now (record h { timedout = stopped })))
          (record { timer = h.timedout; id = h.timeoutid; same = refl }))
