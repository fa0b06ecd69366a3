-- ===== src/Hw/SendNext/Full.antt =====
-- A packet goes out while `flyingids` is full.
use ipbus.Common.{
  ℕ, ◌+◌, ◌<◌, ◌≡◌, ◌≢◌, refl, ap, ◌∙◌, List, length, none, some, arith, ==_self, if◌then◌else◌,
}
use ipbus.Outcome.{done}
use ipbus.IdLog.Ring.{Holds}
use ipbus.IdLog.Effects.{add_full}
use ipbus.Packet.{Packet}
use ipbus.PacketLog
use ipbus.PacketLog.{get}
use ipbus.PacketLog.Laws.{get-add}
use ipbus.Hw.{Hw}
use ipbus.Hw.SendNext.{launch}
use ipbus.Hw.SendNext.Round.{start_timer_lem}

-- Where `flyingids` is full, a packet that was written without an error is entered in `flying` and
-- counted in flight, but its id is not entered in `flyingids`, and there is no error: the log of ids
-- is the one of before.
pub launch_full :
    (now x : ℕ) (p : Packet) (h : Hw) (fs : List ℕ)
    → Holds h.flyingids fs
    → h.flyingids.max ≡ length fs
    → x ≢ 0
    → 0 < h.waittime
    → (h' : Hw) × (launch now x p (h, none) ≡ done (h', none))
      × (get h'.flying x ≡ some (record p { sent = now }))
      × (h'.inflight ≡ h.inflight + 1)
      × (h'.flyingids ≡ h.flyingids)
unfolding launch
launch_full now x p h fs v full nonzero waits =
    let h1 = record h {
      flying = PacketLog.add h.flying x (record p { sent = now });
      inflight = h.inflight + 1;
    } in
    let timed = start_timer_lem x h1 waits in
    (
      record h1 { timedout = timed.timer; timeoutid = timed.id },
      rw (add_full h.flyingids fs x v nonzero (omega arith), timed.returns) refl,
      get-add h.flying x x (record p { sent = now })
          ∙ ap (λ b. if b then some (record p { sent = now }) else get h.flying x) (==_self x),
      refl,
      refl,
    )
