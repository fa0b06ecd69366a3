-- ===== src/Hw/Lost.antt =====
-- `handlelost`, which runs in a goroutine of its own: up to its wait for the status, and from there
-- on. Between the two, `Run` goes on; each of the two is one step here.
pub mod Resend
pub mod Restart
pub mod Recovery
use ipbus.Common.{
  ℕ, zero, suc, ◌+◌, Bool, true, false, ◌||◌, List, [], ◌∷◌, ◌++◌, Option, none, some, length, ◌==◌,
  if◌then◌else◌, u16,
}
use ipbus.Outcome.{Outcome, done, panic, stuck, ◌>>=◌}
use ipbus.Protocol.{Error}
use ipbus.Packet.{Packet}
use ipbus.PacketHeader.{PacketHeader}
use ipbus.PacketLog
use ipbus.Status.{TargetStatus}
use ipbus.Hw.{Hw, Conn, stopped}
use ipbus.Hw.Write.{sendstatusrequest, sendresendrequest}
use ipbus.Hw.Timeout.{updatetimeout}
use ipbus.Hw.SendNext.{sendnext}
use ipbus.Hw.Run.{panic_on_error}

-- Whether one of the headers has the id.
abbrev pub reports : ℕ → List PacketHeader → Bool
reports id [] = false
reports id (h ∷ hs) = h.pid == id || reports id hs

-- The id that follows: 0 is left out.
abbrev pub next_resend : ℕ → ℕ
next_resend id = if u16 (id + 1) == 0 then 1 else u16 (id + 1)

module _ (conn : Conn) where
  unfoldable pub lost_starts : Hw → Outcome Hw
  lost_starts h =
      let (h', e) = sendstatusrequest conn (record h { timedout = stopped; handlinglost = true }) in
      panic_on_error e h'

  -- The packet goes out again. The source panics on an error and on a short write.
  unfoldable pub write_again : ℕ → ℕ → Packet → Hw → Outcome Hw
  write_again now id pack h = do
    let (n, e) = conn h.written pack.request_bytes
    h' ← panic_on_error e (record h { written = h.written ++ (pack.request_bytes ∷ []) })
    if n == length pack.request_bytes
        then done (record h' { flying = PacketLog.add h'.flying id (record pack { sent = now }) })
        else panic

  -- `for flying`, on fuel; the result says whether a packet was sent again. The ids go up one by one,
  -- through ids that are in `flyingids`.
  unfoldable pub resend_loop : ℕ → ℕ → ℕ → Bool → Hw → Outcome (Hw × Bool)
  resend_loop zero now id resent h = stuck
  resend_loop (suc fuel) now id resent h = elim (PacketLog.get h.flying id) [
    | none ↦ done (h, resent)
    | some pack ↦
        (write_again now id pack h >>= λ h'. resend_loop fuel now (next_resend id) true h')
  ]

  -- Nothing but a resend request is sent where the device has replied. Where it has not even received
  -- the packet, this and the packets behind it go out again, while their ids are in flight.
  unfoldable pub recover : ℕ → Bool → Bool → Hw → Outcome Hw
  recover now packetsent packetreceived h =
      if packetsent
      then (do
        let (h1, e) = sendresendrequest conn h.timeoutid h
        h2 ← panic_on_error e h1
        updatetimeout now h2)
      else if packetreceived
      then panic
      else (do
        (h1, resent) ← resend_loop (h.flyingids.n + 1) now h.timeoutid false h
        if resent then updatetimeout now h1 else done h1)

  unfoldable pub lost_ends : ℕ → TargetStatus → Hw → Outcome Hw
  lost_ends now st h = do
    h1 ← recover now (reports h.timeoutid st.sent) (reports h.timeoutid st.received) h
    (h2, _) ← sendnext conn now (record h1 { handlinglost = false })
    done h2
