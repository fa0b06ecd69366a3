-- ===== src/Hw/SendNext.antt =====
-- `sendnext`: queued packets go out while there is room in flight.
pub mod Round
pub mod Window
pub mod Full
use ipbus.Common.{
  ℕ, zero, suc, ◌+◌, Bool, true, false, ◌&&◌, List, [], ◌∷◌, Option, none, some, length, ltb, ◌==◌,
  if◌then◌else◌,
}
use ipbus.Outcome.{Outcome, done, stuck, ◌>>=◌, or_panic}
use ipbus.Protocol.{Error, no_queued_id}
use ipbus.IdLog
use ipbus.IdLog.{IdLog}
use ipbus.Packet.{Packet}
use ipbus.PacketLog
use ipbus.PacketLog.{PacketLog}
use ipbus.Hw.{Hw, Conn, new_ticker}
use ipbus.Hw.Write.{sendpack}

-- `if h.inflight == 1 { … }`
unfoldable pub start_timer : ℕ → Hw → Outcome Hw
start_timer first h =
    if h.inflight == 1
    then (do timer ← new_ticker h.waittime; done (record h { timedout = timer; timeoutid = first }))
    else done h

-- What follows `sendpack`: the packet is in flight, unless there was an error. The error of
-- `flyingids.add` is dropped.
unfoldable pub launch : ℕ → ℕ → Packet → Hw × Option Error → Outcome (Hw × Option Error)
launch now first pack (h, some e) = done (h, some e)
launch now first pack (h, none) = do
  (flyingids, _) ← IdLog.add h.flyingids first
  h' ← start_timer first (record h {
    flying = PacketLog.add h.flying first (record pack { sent = now });
    flyingids = flyingids;
    inflight = h.inflight + 1;
  })
  done (h', none)

-- `if err != nil { return err }`
abbrev pub unless_failed :
    (Hw → Outcome (Hw × Option Error)) → Hw × Option Error → Outcome (Hw × Option Error)
unless_failed go_on (h, some e) = done (h, some e)
unless_failed go_on (h, none) = go_on h

module _ (conn : Conn) where
  unfoldable pub send_oldest : ℕ → Hw → ℕ × Bool → Outcome (Hw × Option Error)
  send_oldest now h (first, false) = done (h, some no_queued_id)
  send_oldest now h (first, true) = do
    (queuedids, _) ← IdLog.remove h.queuedids
    pack ← or_panic (PacketLog.get h.tosend first)
    sent ←
        sendpack conn pack
          (record h { queuedids = queuedids; tosend = PacketLog.remove h.tosend first })
    launch now first pack sent

  -- The loop, on fuel. `waiting` says whether the snapshot of `tosend`, which is taken once before
  -- the loop, has a packet.
  unfoldable pub sendnext_loop : ℕ → Bool → ℕ → Hw → Outcome (Hw × Option Error)
  sendnext_loop zero waiting now h = stuck
  sendnext_loop (suc fuel) waiting now h =
      if ltb h.inflight h.maxflight && waiting
      then (do
        first ← IdLog.oldest h.queuedids
        r ← send_oldest now h first
        unless_failed (sendnext_loop fuel waiting now) r)
      else done (h, none)

  -- Each round but the last takes an id from `queuedids`.
  unfoldable pub sendnext : ℕ → Hw → Outcome (Hw × Option Error)
  sendnext now h =
      if h.handlinglost
      then done (h, none)
      else sendnext_loop (h.queuedids.n + 1) (ltb 0 (length (PacketLog.getall h.tosend))) now h
