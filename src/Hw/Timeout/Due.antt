-- ===== src/Hw/Timeout/Due.antt =====
-- When the timer goes off next.
use ipbus.Common.{
  ℕ, ◌-◌, ◌<◌, ◌≡◌, refl, true, false, List, ◌∷◌, some, ◌⊎◌, inl, inr, arith, ltb, ◌==◌, ==_ne,
}
use native.Mathlib.Decide.{dec_lt}
use ipbus.Outcome.{done, panic}
use ipbus.IdLog.Ring.{Holds}
use ipbus.IdLog.Effects.{secondoldest_some}
use ipbus.Packet.{Packet}
use ipbus.PacketLog.{get}
use ipbus.Hw.{Hw, every, new_ticker}
use ipbus.Hw.Timeout.{time_left, restart, updatetimeout}

-- While packets are in flight and at least two ids are in `flyingids`, let the packet under the second
-- of them be in flight. Where it was sent less than the wait ago, the timer goes off when the wait is
-- over, for that id. Where it was sent just the wait ago, the code panics. Where it was sent longer
-- ago, the timer goes off after 1000 ns, for that id.
pub updatetimeout_lem :
    (now : ℕ) (h : Hw) (x y : ℕ) (q : List ℕ) (p : Packet)
    → Holds h.flyingids (x ∷ y ∷ q)
    → 0 < h.inflight
    → get h.flying y ≡ some p
    → ((now - p.sent < h.waittime)
        × (updatetimeout now h
            ≡ done (record h { timedout = every (h.waittime - (now - p.sent)); timeoutid = y })))
      ⊎ (((now - p.sent ≡ h.waittime) × (updatetimeout now h ≡ panic))
          ⊎ ((h.waittime < now - p.sent)
              × (updatetimeout now h ≡ done (record h { timedout = every 1000; timeoutid = y }))))
unfolding updatetimeout restart new_ticker time_left
updatetimeout_lem now h x y q p v flies found =
    let some_fly : ltb 0 h.inflight ≡ true = ground arith in
    rw (some_fly, secondoldest_some h.flyingids x y q v, found)
      (elim (dec_lt h.waittime (now - p.sent)) [
        | yes late ↦
            let is_late : ltb h.waittime (now - p.sent) ≡ true = ground arith in
            inr (inr (late, rw is_late refl))
        | no in_time ↦
            let not_late : ltb h.waittime (now - p.sent) ≡ false = ground arith in
            elim (dec_lt (now - p.sent) h.waittime) [
              | yes early ↦ inl (
                early,
                rw (not_late, ==_ne (h.waittime - (now - p.sent)) 0 (λ e. omega arith)) refl,
              )
              | no just ↦
                  let is_zero : (h.waittime - (now - p.sent) == 0) ≡ true = ground arith in
                  inr (inl (omega arith, rw (not_late, is_zero) refl))
            ]
      ])
