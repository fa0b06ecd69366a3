-- ===== src/Hw/Timeout.antt =====
-- `updatetimeout`, at the time `now`. Times and durations are in nanoseconds; a duration is a signed
-- number, so the two cases of the subtraction are written out.
pub mod Due
use ipbus.Common.{ℕ, ◌-◌, Bool, true, false, Option, none, some, ltb, if◌then◌else◌}
use ipbus.Outcome.{Outcome, done, ◌>>=◌}
use ipbus.IdLog.{secondoldest}
use ipbus.Packet.{Packet}
use ipbus.PacketLog.{get}
use ipbus.Hw.{Hw, stopped, new_ticker}

-- `dt`, which is 1000 where the difference is negative; without a packet it is the whole wait.
unfoldable pub time_left : ℕ → ℕ → Option Packet → ℕ
time_left now waittime none = waittime
time_left now waittime (some p) =
    if ltb waittime (now - p.sent) then 1000 else waittime - (now - p.sent)

unfoldable pub restart : ℕ → Hw → ℕ × Bool → Outcome Hw
restart now h (first, false) = done h
restart now h (first, true) = do
  timer ← new_ticker (time_left now h.waittime (get h.flying first))
  done (record h { timedout = timer; timeoutid = first })

unfoldable pub updatetimeout : ℕ → Hw → Outcome Hw
updatetimeout now h =
    if ltb 0 h.inflight
    then (secondoldest h.flyingids >>= restart now h)
    else done (record h { timedout = stopped })
