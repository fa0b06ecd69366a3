-- ===== src/Hw/Run.antt =====
-- `Run`: what the loop does with a packet of a user and with a datagram of the device, and
-- `ConfigDevice`. A step is one case of the `select`, run to its end.
pub mod Incoming
pub mod Timer
pub mod HandBack
pub mod Parsed
pub mod Reply
use ipbus.Common.{
  ℕ, ◌+◌, ◌-◌, Bool, true, false, List, [], ◌∷◌, ◌++◌, Option, none, some, length, ltb, ◌==◌,
  if◌then◌else◌,
}
use ipbus.Outcome.{Outcome, done, panic, stuck, ◌>>=◌}
use ipbus.Protocol.{Error}
use ipbus.IdLog
use ipbus.IdLog.{track}
use ipbus.Packet.{Packet}
use ipbus.Packet.Headed.{writeheader}
use ipbus.Packet.Parse.{parse}
use ipbus.PacketHeader
use ipbus.PacketHeader.{zero_header}
use ipbus.PacketLog
use ipbus.Status.{Slice, TargetStatus, parse_status}
use ipbus.Hw.{Hw, Conn, stopped, nextid}
use ipbus.Hw.Write.{sendstatusrequest}
use ipbus.Hw.Timeout.{updatetimeout}
use ipbus.Hw.SendNext.{sendnext}
use ipbus.Hw.ReturnReply.{returnreply}

-- `h.statuses <- st`: the channel has room for ten, and a send into a full channel waits for ever if
-- nobody takes from it.
unfoldable pub queue_status : TargetStatus → Hw → Outcome Hw
queue_status st h =
    if ltb (length h.statuses) 10
    then done (record h { statuses = h.statuses ++ (st ∷ []) })
    else stuck

-- `if id == oldest { h.timedout.Stop(); h.updatetimeout() }`
unfoldable pub oldest_answered : ℕ → ℕ → Hw → Outcome Hw
oldest_answered now id h = do
  (oldest, _) ← IdLog.oldest h.flyingids
  if id == oldest then updatetimeout now (record h { timedout = stopped }) else done h

-- `if err != nil { panic(err) }`
abbrev pub panic_on_error : Option Error → Hw → Outcome Hw
panic_on_error none h = done h
panic_on_error (some e) h = panic

module _ (conn : Conn) where
  -- A packet comes from `incoming`. The errors of `writeheader` and `sendnext` are dropped.
  unfoldable pub on_incoming : ℕ → Packet → Hw → Outcome Hw
  on_incoming now pack h = do
    let (id, h1) = nextid h
    let (pack', _) = writeheader pack id
    (queuedids, e) ← IdLog.add h1.queuedids pack'.id
    h2 ← panic_on_error e (record h1 {
      tosend = PacketLog.add h1.tosend pack'.id pack';
      queuedids = queuedids;
      taken = h1.taken ++ (pack' ∷ []);
    })
    (h3, _) ← sendnext conn now h2
    done h3

  -- A reply to a packet in flight. The errors of `sendnext` and `parse` are dropped.
  unfoldable pub on_answer : ℕ → ℕ → List ℕ → Packet → Hw → Outcome Hw
  on_answer now id bytes req h = do
    h1 ← oldest_answered now id (record h { inflight = h.inflight - 1 })
    (h2, _) ← sendnext conn now (record h1 { flying = PacketLog.remove h1.flying id })
    (req', _) ← parse req bytes
    returnreply (record h2 { replied = PacketLog.add h2.replied id req' })

  unfoldable pub on_control : ℕ → ℕ → List ℕ → Option Packet → Hw → Outcome Hw
  on_control now id bytes (some req) h = on_answer now id bytes req h
  on_control now id bytes none h = if id == h.resent then done h else panic

  -- A datagram comes from `replies`. The error of `decode` is dropped; the id is then 0.
  unfoldable pub on_reply : ℕ → Slice → Hw → Outcome Hw
  on_reply now rep h = do
    let id = (PacketHeader.decode zero_header rep.bytes).0.pid
    received ← track h.received id
    let h1 = record h { received = received; arrived = h.arrived ++ (rep.bytes ∷ []) }
    if id == 0
        then (do (st, _) ← parse_status rep; queue_status st h1)
        else on_control now id rep.bytes (PacketLog.get h1.flying id) h1

  -- `ConfigDevice` up to its wait for the status, and from there on.
  unfoldable pub config_starts : Hw → Outcome Hw
  config_starts h = let (h', e) = sendstatusrequest conn h in panic_on_error e h'

unfoldable pub config_ends : TargetStatus → Hw → Hw
config_ends st h = record h { mtu = st.mtu; next_id = st.nextid; configured = true }

-- The counters of what was sent, after a report.
unfoldable pub report : Hw → Hw
report h = record h { bytessent = 0; packssent = 0 }
