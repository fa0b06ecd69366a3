-- ===== src/Hw/Trace/Order.antt =====
-- The theorem on runs.
use ipbus.Common.{ℕ, ◌<◌, ◌≢◌, sym, subst, ◌∙◌, List, [], ◌∷◌, ◌++◌, inl, inr}
use ipbus.Outcome.{done, panic, OrPanics-done}
use ipbus.Packet.{Packet}
use ipbus.Status.{new_resend_packet}
use ipbus.Hw.{Hw, Conn}
use ipbus.Hw.SendNext.Round.{Works}
use ipbus.Hw.Run.{config_ends, report}
use ipbus.Hw.Run.Incoming.{on_incoming_lem}
use ipbus.Hw.Run.HandBack.{Answered}
use ipbus.Hw.Run.Reply.{on_reply-Answered, id_of}
use ipbus.Hw.Lost.Recovery.{Recovered, lost_ends_lem}
use ipbus.Hw.Trace.{
  Step, Reach, usual, incoming, answer, status_asked, timed_out, recovered, reported, start,
  and_then, and_configured,
}
use ipbus.Hw.Trace.Start.{
  on_reply_status, config_starts-SameFlow, lost_starts-SameFlow, report-SameFlow,
}
use ipbus.Hw.Trace.Keeps.{
  InOrder, new_hw-InOrder, same_flow, recovers, took_status, configured_first,
}
use ipbus.Hw.Trace.Through.{accepts, answers}

panics_not : {h : Hw} → panic ≢ done h
panics_not e = cc

step-InOrder :
    (conn : Conn) (h h' : Hw) (given more : List Packet)
    → Works conn
    → InOrder h given
    → Step conn usual h more h'
    → InOrder h' (given ++ more)
step-InOrder conn h h' given _ works o (incoming now pack e) =
    elim (on_incoming_lem conn now h pack o.fs o.qs o.inv works o.can_send) [
      | inl (_, a) ↦ accepts h given pack h' o a e
      | inr (_, full) ↦ absurd (panics_not (sym full ∙ e))
    ]
step-InOrder conn h h' given _ works o (answer now rep (inl zero_id) e) =
    same_flow h h' given o (on_reply_status conn now rep h h' zero_id e)
step-InOrder conn h h' given _ works o (answer now rep (inr (nonzero, c, words, slots)) e) =
    answers h h' (id_of rep) rep.bytes given o (
      OrPanics-done (Answered h (id_of rep) rep.bytes (h.arrived ++ (rep.bytes ∷ [])) o.fs o.qs) _
        (on_reply-Answered conn now h rep o.fs o.qs works o.inv o.can_send slots c words nonzero) e)
step-InOrder conn h h' given _ works o (status_asked e) =
    same_flow h h' given o (config_starts-SameFlow conn h h' works e)
step-InOrder conn h h' given _ works o (timed_out e) =
    same_flow h h' given o (lost_starts-SameFlow conn h h' works e)
step-InOrder conn h _ given _ works o reported = same_flow h (report h) given o (report-SameFlow h)
step-InOrder conn h h' given _ works o (recovered now st sts _ e) =
    let h1 = record h { statuses = sts } in
    let o1 = took_status h sts given o in
    elim (lost_ends_lem conn now h1 st o1.fs o1.qs works o1.inv o1.can_send) [
      | inl (_, r) ↦
          recovers h1 h' given (new_resend_packet h.timeoutid ∷ []) o1
            (OrPanics-done (Recovered h1 o1.fs o1.qs (new_resend_packet h.timeoutid ∷ [])) _ r e)
      | inr (inl (_, _, stops)) ↦ absurd (panics_not (sym stops ∙ e))
      | inr (inr (_, _, (ds, _, r))) ↦
          recovers h1 h' given ds o1 (OrPanics-done (Recovered h1 o1.fs o1.qs ds) _ r e)
    ]

-- On a connection on which no write fails, with a wait that is not 0, whose users receive whatever is
-- sent to them, take any run of the connection of the usual kind: packets of the users, datagrams of
-- the device, timeouts, recoveries and reports, in any order, where `ConfigDevice` ends, with an id
-- that is not 0, before a packet is taken, each datagram is a status (id 0) or a control packet of
-- whole words, and at each of the latter `flyingids` has a slot for one packet more than may go out.
-- Of the packets that the users gave, the first have been answered: what went out on the channels of
-- the users is the responses of these packets, each on the channels of its own transactions, packet by
-- packet in the order in which they were given; the responses of a packet are those that `parse` makes
-- for its transactions of a datagram with its id that has arrived, one for each transaction at least.
-- The others wait, in that order, under ids of which the first were sent and the others not yet. The
-- ids of all packets are in line, 1 to 65535 and again, without a gap. And the invariant holds: each
-- id sent is either in flight or waits with its replies, each id not yet sent is in `tosend`, each with
-- the transactions that its user asked for, and `inflight` counts the packets in flight, which are no
-- more than `maxflight`. Nothing waits without need: the oldest id that was sent has no reply yet, and
-- unless a lost packet is being handled, no id waits to be sent while fewer than `maxflight` packets
-- are in flight.
pub reach-InOrder :
    (conn : Conn) (waittime : ℕ) (h : Hw) (given : List Packet)
    → Works conn
    → 0 < waittime
    → Reach conn waittime usual h given
    → InOrder h given
reach-InOrder conn waittime _ _ works w start = new_hw-InOrder waittime w
reach-InOrder conn waittime _ _ works w (and_then {h} {h'} {packs} {more} r s) =
    step-InOrder conn h h' packs more works (reach-InOrder conn waittime h packs works w r) s
reach-InOrder conn waittime _ _ works w (and_configured {h} {packs} st sts r e (none_taken, v)) =
    subst (InOrder (config_ends st (record h { statuses = sts }))) (sym none_taken) (
      configured_first h st sts v
        (subst (InOrder h) none_taken (reach-InOrder conn waittime h packs works w r)))
