-- ===== src/Hw/Write.antt =====
-- The methods that write one datagram. An error counts as written here, for the bytes may be on their
-- way; the counters count what `Write` says.
use ipbus.Common.{ℕ, ◌+◌, List, [], ◌∷◌, ◌++◌, Option}
use ipbus.Outcome.{Outcome, done, ◌>>=◌}
use ipbus.Protocol.{Error}
use ipbus.IdLog.{track}
use ipbus.Packet.{Packet}
use ipbus.Status.{new_status_packet, new_resend_packet}
use ipbus.Hw.{Hw, Conn}

module _ (conn : Conn) where
  -- `h.conn.Write(data)` and the counters that all but one of its calls update.
  unfoldable pub write : List ℕ → Hw → Hw × Option Error
  write bytes h =
      let (n, e) = conn h.written bytes in
      (
        record h {
          written = h.written ++ (bytes ∷ []);
          bytessent = h.bytessent + n;
          packssent = h.packssent + 1;
        },
        e,
      )

  unfoldable pub sendpack : Packet → Hw → Outcome (Hw × Option Error)
  sendpack pack h = do
    sentout ← track h.sentout pack.id
    done (write pack.request_bytes (record h { sentout = sentout }))

  unfoldable pub sendstatusrequest : Hw → Hw × Option Error
  sendstatusrequest h = write new_status_packet h

  unfoldable pub sendresendrequest : ℕ → Hw → Hw × Option Error
  sendresendrequest id h =
      let (h', e) = write (new_resend_packet id) h in (record h' { resent = id }, e)
