-- ===== src/Hw.antt =====
-- hw.go: the connection to one device, with several packets in flight. The state is that of `hw`; to
-- it belong four logs of what passed in and out: the packets taken from the users, the datagrams
-- written to the connection, those that `Run` took from `replies`, and the responses sent on the
-- users' channels; and `readers`, who receives from these channels. The children hold the
-- methods, and Endpoint the channels `incoming` and `replies` with `Send`, `receive` and the loop of
-- `Run`.
pub mod Write
pub mod Timeout
pub mod SendNext
pub mod ReturnReply
pub mod Run
pub mod Lost
pub mod Ids
pub mod Answer
pub mod Inv
pub mod Moving
pub mod Trace
pub mod Endpoint
mod Tests
use ipbus.Common.{
  ℕ, ◌+◌, u16, Option, Bool, true, false, List, [], Option, replicate, ltb, ◌==◌, if◌then◌else◌,
}
use ipbus.Outcome.{Outcome, done, panic}
use ipbus.Protocol.{Error}
use ipbus.IdLog.{IdLog, Tracker, new_id_log, new_tracker}
use ipbus.Packet.{Packet}
use ipbus.Packet.Send.{ChanEvent, Readers}
use ipbus.PacketLog.{PacketLog, new_packet_log}
use ipbus.Status.{TargetStatus}

-- `*time.Ticker`: stopped, or due again and again after a number of nanoseconds.
pub data Ticker : Type 0 where
  stopped : Ticker
  every : ℕ → Ticker

-- `time.NewTicker`, which panics for 0.
unfoldable pub new_ticker : ℕ → Outcome Ticker
new_ticker d = if d == 0 then panic else done (every d)

-- `inflight` is an int; it is the number of packets in `flying` (Hw.Inv), so it is not negative.
pub record Hw : Type 0 where
  pub statuses : List TargetStatus
  pub configured : Bool
  pub next_id : ℕ
  pub timeoutid : ℕ
  pub mtu : ℕ
  pub inflight : ℕ
  pub maxflight : ℕ
  pub tosend : PacketLog Packet
  pub flying : PacketLog Packet
  pub replied : PacketLog Packet
  pub queuedids : IdLog
  pub flyingids : IdLog
  pub timedout : Ticker
  pub waittime : ℕ
  pub bytessent : ℕ
  pub packssent : ℕ
  pub returnedids : List ℕ
  pub returnedindex : ℕ
  pub returnedsize : ℕ
  pub sentout : Tracker
  pub received : Tracker
  pub returned : Tracker
  pub resent : ℕ
  pub handlinglost : Bool
  pub written : List (List ℕ)
  pub delivered : List ChanEvent
  pub taken : List Packet
  pub arrived : List (List ℕ)
  pub readers : Readers

-- `newhw` and `init`; the users receive all that is sent to them, unless the state says otherwise.
unfoldable pub new_hw : ℕ → Hw
new_hw waittime = record {
  statuses = [];
  configured = false;
  next_id = 1;
  timeoutid = 0;
  mtu = 0;
  inflight = 0;
  maxflight = 4;
  tosend = new_packet_log;
  flying = new_packet_log;
  replied = new_packet_log;
  queuedids = new_id_log 256;
  flyingids = new_id_log 32;
  timedout = every 10_000_000_000_000;
  waittime = waittime;
  bytessent = 0;
  packssent = 0;
  returnedids = replicate 32 0;
  returnedindex = 31;
  returnedsize = 32;
  sentout = new_tracker 16;
  received = new_tracker 16;
  returned = new_tracker 16;
  resent = 0;
  handlinglost = false;
  written = [];
  delivered = [];
  taken = [];
  arrived = [];
  readers = λ past chan. true;
}

-- `nextid`: the id, and the state after it.
unfoldable pub nextid : Hw → ℕ × Hw
nextid h =
    if h.next_id == 65535
    then (h.next_id, record h { next_id = 1 })
    else (h.next_id, record h { next_id = u16 (h.next_id + 1) })

-- `net.Conn.Write`, which is not part of this repository: from what was written before and the bytes
-- of this datagram, the number of bytes that it took and its error.
abbrev pub Conn : Type 0
Conn = List (List ℕ) → List ℕ → ℕ × Option Error
