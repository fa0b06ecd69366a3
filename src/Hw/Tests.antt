-- ===== src/Hw/Tests.antt =====
-- The theorems at the states of a run.
pub mod Runs
use ipbus.Common.{
  inr, zero, suc, get_elem?, none, some, ◌%◌, ◌+◌, ◌-◌, ◌<◌, ℕ, ◌≤◌, ◌≡◌, ◌≢◌, ◌⊎◌, refl, sym, ap,
  subst, ◌∙◌, Bool, true, false, List, [], ◌∷◌, ◌++◌, length, map, arith,
}
use ipbus.Outcome.{Outcome, done, panic, OrPanics}
use ipbus.Packet.{Packet}
use ipbus.Status.{new_resend_packet}
use ipbus.IdLog.{IdLog}
use ipbus.IdLog.Ring.{Holds}
use ipbus.PacketLog
use ipbus.PacketLog.{new_packet_log}
use ipbus.Hw.Timeout.{updatetimeout}
use ipbus.Hw.Timeout.Due.{updatetimeout_lem}
use ipbus.Hw.SendNext.Full.{launch_full}
use ipbus.Hw.{every, Hw, Conn, new_hw}
use ipbus.Hw.Inv.{Inv}
use ipbus.Hw.SendNext.{launch, sendnext}
use ipbus.Hw.SendNext.Round.{Works, CanSend}
use ipbus.Hw.SendNext.Window.{Sends, sendnext-Sends}
use ipbus.Hw.ReturnReply.{returnreply}
use ipbus.Hw.ReturnReply.Order.{Returned, all_deliveries, returnreply-Returned}
use ipbus.Hw.Run.{on_incoming, on_reply}
use ipbus.Hw.Run.Incoming.{Accepted, on_incoming_lem}
use ipbus.Hw.Run.HandBack.{Answered}
use ipbus.Hw.Run.Reply.{id_of, on_reply-Answered}
use ipbus.Hw.Lost.{reports, lost_ends}
use ipbus.Hw.Lost.Restart.{Again}
use ipbus.Hw.Lost.Recovery.{Recovered, lost_ends_lem}
use ipbus.Hw.Trace.{Reach, usual, incoming, answer, timed_out, start, and_then}
use ipbus.Hw.Trace.Keeps.{InOrder}
use ipbus.Hw.Trace.Order.{reach-InOrder}
use ipbus.Hw.Tests.Runs.{
  open_conn, read_one, after, one_sent, two_sent, word_reply, second_answered, both_answered, lost,
  third_queued, nothing_received, returned-after, runs, word_reply-IsControl, word_reply-id,
}

open_conn-Works : Works open_conn
open_conn-Works before bytes = refl

two_sent-Reach : Reach open_conn 1000 usual two_sent (read_one 7 ∷ read_one 8 ∷ [])
two_sent-Reach =
    let (first, second) = runs.0 in
    and_then (and_then start (incoming 5 (read_one 7) (returned-after _ first)))
      (incoming 6 (read_one 8) (returned-after _ second))

second_answered-Reach : Reach open_conn 1000 usual second_answered (read_one 7 ∷ read_one 8 ∷ [])
second_answered-Reach =
    let (returns, _, slots, _) = runs.1 in
    and_then two_sent-Reach (
      answer 7 (word_reply 2) (inr (word_reply-id.1, word_reply-IsControl.1, refl, slots))
        (returned-after _ returns))

both_answered-Reach : Reach open_conn 1000 usual both_answered (read_one 7 ∷ read_one 8 ∷ [])
both_answered-Reach =
    let (_, returns, _, slots) = runs.1 in
    and_then second_answered-Reach (
      answer 8 (word_reply 1) (inr (word_reply-id.0, word_reply-IsControl.0, refl, slots))
        (returned-after _ returns))

third_queued-Reach :
    Reach open_conn 1000 usual third_queued (read_one 7 ∷ read_one 8 ∷ read_one 9 ∷ [])
third_queued-Reach =
    let (first, second, _) = runs.2 in
    and_then (and_then two_sent-Reach (timed_out (returned-after _ first)))
      (incoming 9 (read_one 9) (returned-after _ second))

reach-InOrder_example : InOrder both_answered (read_one 7 ∷ read_one 8 ∷ [])
reach-InOrder_example =
    reach-InOrder open_conn 1000 both_answered (read_one 7 ∷ read_one 8 ∷ []) open_conn-Works
      (omega arith) both_answered-Reach

two_sent-InOrder : InOrder two_sent (read_one 7 ∷ read_one 8 ∷ [])
two_sent-InOrder =
    reach-InOrder open_conn 1000 two_sent (read_one 7 ∷ read_one 8 ∷ []) open_conn-Works
      (omega arith) two_sent-Reach

second_answered-InOrder : InOrder second_answered (read_one 7 ∷ read_one 8 ∷ [])
second_answered-InOrder =
    reach-InOrder open_conn 1000 second_answered (read_one 7 ∷ read_one 8 ∷ []) open_conn-Works
      (omega arith) second_answered-Reach

third_queued-InOrder : InOrder third_queued (read_one 7 ∷ read_one 8 ∷ read_one 9 ∷ [])
third_queued-InOrder =
    reach-InOrder open_conn 1000 third_queued (read_one 7 ∷ read_one 8 ∷ read_one 9 ∷ [])
      open_conn-Works (omega arith) third_queued-Reach

sendnext-Sends_example :
    Sends third_queued third_queued-InOrder.fs third_queued-InOrder.qs []
      (sendnext open_conn 10 third_queued)
sendnext-Sends_example =
    sendnext-Sends open_conn 10 third_queued third_queued-InOrder.fs third_queued-InOrder.qs []
      open_conn-Works third_queued-InOrder.can_send third_queued-InOrder.inv

returnreply-Returned_example :
    OrPanics
      (Returned second_answered second_answered-InOrder.fs second_answered-InOrder.qs)
      (returnreply second_answered)
returnreply-Returned_example =
    returnreply-Returned second_answered second_answered-InOrder.fs second_answered-InOrder.qs
      second_answered-InOrder.inv second_answered-InOrder.can_send.reads

on_incoming_lem_example :
    ((length two_sent-InOrder.qs < 256)
      × Accepted two_sent
          (read_one 9)
          two_sent-InOrder.fs
          two_sent-InOrder.qs
          (on_incoming open_conn 9 (read_one 9) two_sent))
    ⊎ ((256 ≤ length two_sent-InOrder.qs) × (on_incoming open_conn 9 (read_one 9) two_sent ≡ panic))
on_incoming_lem_example =
    on_incoming_lem open_conn 9 two_sent (read_one 9) two_sent-InOrder.fs two_sent-InOrder.qs
      two_sent-InOrder.inv open_conn-Works two_sent-InOrder.can_send

on_reply-Answered_example :
    OrPanics
      (Answered two_sent
        (id_of (word_reply 1))
        (word_reply 1).bytes
        (two_sent.arrived ++ ((word_reply 1).bytes ∷ []))
        two_sent-InOrder.fs
        two_sent-InOrder.qs)
      (on_reply open_conn 7 (word_reply 1) two_sent)
on_reply-Answered_example =
    on_reply-Answered open_conn 7 two_sent (word_reply 1) two_sent-InOrder.fs two_sent-InOrder.qs
      open_conn-Works two_sent-InOrder.inv two_sent-InOrder.can_send runs.1.2 word_reply-IsControl.0
      refl word_reply-id.0

lost_ends_lem_example :
    ((reports third_queued.timeoutid nothing_received.sent ≡ true)
      × OrPanics
          (Recovered third_queued third_queued-InOrder.fs third_queued-InOrder.qs
            (new_resend_packet third_queued.timeoutid ∷ []))
          (lost_ends open_conn 10 nothing_received third_queued))
    ⊎ (((reports third_queued.timeoutid nothing_received.sent ≡ false)
          × (reports third_queued.timeoutid nothing_received.received ≡ true)
          × (lost_ends open_conn 10 nothing_received third_queued ≡ panic))
        ⊎ ((reports third_queued.timeoutid nothing_received.sent ≡ false)
            × (reports third_queued.timeoutid nothing_received.received ≡ false)
            × ((datagrams : List (List ℕ)) × Again third_queued third_queued-InOrder.fs datagrams
                × OrPanics
                    (Recovered third_queued third_queued-InOrder.fs third_queued-InOrder.qs
                      datagrams)
                    (lost_ends open_conn 10 nothing_received third_queued))))
lost_ends_lem_example =
    lost_ends_lem open_conn 10 third_queued nothing_received third_queued-InOrder.fs
      third_queued-InOrder.qs open_conn-Works third_queued-InOrder.inv third_queued-InOrder.can_send

-- A full log of two ids.
abbrev two_ids : IdLog
two_ids = record { ids = 1 ∷ 2 ∷ []; first = 0; n = 2; max = 2 }

two_ids-Holds : Holds two_ids (1 ∷ 2 ∷ [])
two_ids-Holds = record {
  size = refl;
  first_in = omega arith;
  counted = refl;
  fits = omega arith;
  slots = slot;
}
  where
    slot :
        (j : ℕ)
        → j < 2
        → get_elem? {A = ℕ} (1 ∷ 2 ∷ []) ((0 + j) % 2) ≡ get_elem? {A = ℕ} (1 ∷ 2 ∷ []) j
    slot zero l = refl
    slot (suc zero) l = refl
    slot (suc (suc j)) l = absurd (omega arith)

-- A connection with the packet 2 in flight.
abbrev in_flight : Hw
in_flight = record (new_hw 1000) {
  flyingids = two_ids;
  inflight = 2;
  flying = PacketLog.add new_packet_log 2 (record (read_one 8) { sent = 6 });
}

in_flight-waits : in_flight.waittime ≡ 1000
unfolding new_hw
in_flight-waits = refl

in_flight-found : PacketLog.get in_flight.flying 2 ≡ some (record (read_one 8) { sent = 6 })
unfolding PacketLog.get PacketLog.add PacketLog.put PacketLog.delete PacketLog.lookup
    PacketLog.serve
in_flight-found = refl

updatetimeout_lem_example :
    ((300 - 6 < in_flight.waittime)
      × (updatetimeout 300 in_flight
          ≡ done (record in_flight {
            timedout = every (in_flight.waittime - (300 - 6));
            timeoutid = 2;
          })))
    ⊎ (((300 - 6 ≡ in_flight.waittime) × (updatetimeout 300 in_flight ≡ panic))
        ⊎ ((in_flight.waittime < 300 - 6)
            × (updatetimeout 300 in_flight
                ≡ done (record in_flight { timedout = every 1000; timeoutid = 2 }))))
updatetimeout_lem_example =
    updatetimeout_lem 300 in_flight 1 2 [] (record (read_one 8) { sent = 6 }) two_ids-Holds
      (omega arith) in_flight-found

launch_full_example :
    (h' : Hw) × (launch 300 3 (read_one 9) (in_flight, none) ≡ done (h', none))
    × (PacketLog.get h'.flying 3 ≡ some (record (read_one 9) { sent = 300 }))
    × (h'.inflight ≡ 3)
    × (h'.flyingids ≡ two_ids)
launch_full_example =
    launch_full 300 3 (read_one 9) in_flight (1 ∷ 2 ∷ []) two_ids-Holds refl (λ e. omega arith)
      (omega (arith, in_flight-waits))
