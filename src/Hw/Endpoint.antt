-- ===== src/Hw/Endpoint.antt =====
-- hw.go: the channels between the users, `Run` and the connection: `Send`, a round of `receive`, and a
-- round of `Run` with its `select`. A statement that waits for a channel, which has room or something
-- in it when another goroutine has run, is `stuck` here.
pub mod Live
pub mod Channels
pub mod Served
pub mod Answers
mod Tests
use ipbus.Common.{
  ℕ, ◌+◌, Bool, true, false, List, [], ◌∷◌, ◌++◌, length, take, drop, replicate, Option, none, some,
  ltb, if◌then◌else◌,
}
use ipbus.Outcome.{Outcome, done, panic, stuck, ◌>>=◌}
use ipbus.Protocol.{Error, hw_stopped}
use ipbus.Packet.{Packet}
use ipbus.Status.{Slice}
use ipbus.Hw.{Hw, Conn, new_hw}
use ipbus.Hw.Run.{on_incoming, on_reply, report}
use ipbus.Hw.Lost.{lost_starts}

-- The rest of the state of `hw`: its channels `incoming` and `replies`, and its field `stopped`; the
-- variables `running` of `Run` and of `receive`; and whether the connection is open.
pub record Endpoint : Type 0 where
  pub hw : Hw
  pub incoming : List Packet
  pub replies : List Slice
  pub is_stopped : Bool
  pub bytesreceived : ℕ
  pub packsreceived : ℕ
  pub running : Bool
  pub receiving : Bool
  pub is_open : Bool

-- `newhw`, and the first statements of `Run`.
unfoldable pub new_endpoint : ℕ → Endpoint
new_endpoint waittime = record {
  hw = new_hw waittime;
  incoming = [];
  replies = [];
  is_stopped = false;
  bytesreceived = 0;
  packsreceived = 0;
  running = true;
  receiving = true;
  is_open = true;
}

-- `Send`; the channel has room for 100 packets.
unfoldable pub send : Packet → Endpoint → Outcome (Endpoint × Option Error)
send p e =
    if e.is_stopped
    then done (e, some hw_stopped)
    else if ltb (length e.incoming) 100
    then done (record e { incoming = e.incoming ++ (p ∷ []) }, none)
    else stuck

-- The data of `emptyPacket`.
abbrev pub empty_packet : List ℕ
empty_packet = replicate 1500 0

-- What `net.Conn.Read` makes of a buffer: the number of bytes read, the buffer with them, an error.
pub record Read : Type 0 where
  pub n : ℕ
  pub buffer : List ℕ
  pub error : Option Error

-- `h.replies <- p`
unfoldable pub queue_reply : Slice → Endpoint → Outcome Endpoint
queue_reply rep e =
    if ltb (length e.replies) 100
    then done (record e { replies = e.replies ++ (rep ∷ []) })
    else stuck

-- `p.Data[:n]`, and what is done with it; after an error `receive` ends.
abbrev pub after_read : Read → Endpoint → Option Error → Outcome Endpoint
after_read r e (some er) = done (record e { receiving = false })
after_read r e none =
    if ltb (length r.buffer) r.n
    then panic
    else queue_reply (record { bytes = take r.n r.buffer; spare = drop r.n r.buffer }) e

-- A round of `receive`.
unfoldable pub receive : (List ℕ → Read) → Endpoint → Outcome Endpoint
receive conn_read e =
    let r = conn_read empty_packet in
    after_read r
      (record e { bytesreceived = e.bytesreceived + r.n; packsreceived = e.packsreceived + 1 })
      r.error

-- The cases of the `select` in `Run`.
pub data Case : Type 0 where
  stop_asked packet_in reply_in timer_due report_due : Case

module _ (conn : Conn) (now : ℕ) where
  abbrev pub take_packet : Endpoint → List Packet → Outcome Endpoint
  take_packet e [] = stuck
  take_packet e (pack ∷ rest) =
      on_incoming conn now pack e.hw >>= λ hw. done (record e { hw = hw; incoming = rest })

  abbrev pub take_reply : Endpoint → List Slice → Outcome Endpoint
  take_reply e [] = stuck
  take_reply e (rep ∷ rest) =
      on_reply conn now rep e.hw >>= λ hw. done (record e { hw = hw; replies = rest })

  -- A tick comes from `timedout`. `Ticker.Stop` leaves a tick that is in the channel already, so one
  -- may come from a stopped timer too; when one comes, if at all, is for the run to say.
  abbrev pub on_timer : Endpoint → Outcome Endpoint
  on_timer e = lost_starts conn e.hw >>= λ hw. done (record e { hw = hw })

  -- A round of `Run`.
  unfoldable pub run_round : Case → Endpoint → Outcome Endpoint
  run_round stop_asked e = done (record e { is_open = false; running = false })
  run_round packet_in e = take_packet e e.incoming
  run_round reply_in e = take_reply e e.replies
  run_round timer_due e = on_timer e
  run_round report_due e =
      done (record e { hw = report e.hw; bytesreceived = 0; packsreceived = 0 })
