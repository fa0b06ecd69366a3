-- ===== src/Hw/ReturnReply.antt =====
-- `returnreply`: replies are handed on in the order in which the packets were sent.
pub mod Order
use ipbus.Common.{ℕ, zero, suc, ◌+◌, ◌%◌, Bool, true, false, List, ◌++◌, Option, none, some}
use ipbus.Outcome.{Outcome, done, stuck, ◌>>=◌}
use ipbus.IdLog
use ipbus.IdLog.{IdLog, modulo, store, track}
use ipbus.Packet.{Packet}
use ipbus.Packet.Send.{ChanEvent, send}
use ipbus.PacketLog
use ipbus.PacketLog.{PacketLog}
use ipbus.Hw.{Hw}

-- The body of `if ok { … }`; the error of `remove` is dropped.
unfoldable pub hand_on : ℕ → Packet → Hw → Outcome Hw
hand_on first p h = do
  (flyingids, _) ← IdLog.remove h.flyingids
  returned ← track h.returned first
  events ← send h.readers h.delivered p
  returnedindex ← modulo (h.returnedindex + 1) h.returnedsize
  returnedids ← store h.returnedids returnedindex first
  done (record h {
    flyingids = flyingids;
    replied = PacketLog.remove h.replied first;
    returned = returned;
    delivered = h.delivered ++ events;
    returnedindex = returnedindex;
    returnedids = returnedids;
  })

-- One round: the state after it, and whether it sent a reply.
unfoldable pub return_first : Hw → ℕ × Bool → Option Packet → Outcome (Hw × Bool)
return_first h (first, false) reply = done (h, false)
return_first h (first, true) none = done (h, false)
return_first h (first, true) (some p) = do h' ← hand_on first p h; done (h', true)

-- `for sentrep`
abbrev pub while_sent : (Hw → Outcome Hw) → Hw × Bool → Outcome Hw
while_sent go_on (h, false) = done h
while_sent go_on (h, true) = go_on h

unfoldable pub return_loop : ℕ → Hw → Outcome Hw
return_loop zero h = stuck
return_loop (suc fuel) h = do
  first ← IdLog.oldest h.flyingids
  r ← return_first h first (PacketLog.get h.replied first.0)
  while_sent (return_loop fuel) r

-- Each round but the last takes an id from `flyingids`.
unfoldable pub returnreply : Hw → Outcome Hw
returnreply h = return_loop (h.flyingids.n + 1) h
