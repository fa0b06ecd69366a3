-- ===== src/Hw/Run/Reply.antt =====
-- A datagram of the device that answers a packet.
use ipbus.Common.{
  ℕ, ◌-◌, ◌%◌, ◌≡◌, ◌≢◌, refl, sym, subst, true, List, [], ◌∷◌, ◌++◌, length, none, some, ◌⊎◌,
  Option-cases, append-nil, inl, inr, arith, ◌==◌, ==_ne,
}
use ipbus.Outcome.{Outcome, done, panic, ◌>>=◌, OrPanics, OrPanics-bind, OrPanics-if, OrPanics-map}
use ipbus.IdLog.{Tracker, track}
use ipbus.IdLog.Ends.{track-OrPanics}
use ipbus.Packet.{Packet}
use ipbus.Packet.Parse.{parse}
use ipbus.Packet.Parse.Ends.{IsControl}
use ipbus.PacketHeader
use ipbus.PacketHeader.{zero_header}
use ipbus.PacketLog
use ipbus.PacketLog.{PacketLog, has, get, is_some}
use ipbus.Status.{Slice}
use ipbus.PacketLog.Laws.{has-some}
use ipbus.Hw.{Hw, Conn, Ticker}
use ipbus.Hw.Inv.{Inv}
use ipbus.Hw.Inv.Back.{landed, arrives}
use ipbus.Hw.Moving.{IsMoving}
use ipbus.Hw.SendNext.{sendnext}
use ipbus.Hw.SendNext.Round.{Works, CanSend}
use ipbus.Hw.SendNext.Window.{sendnext-Sends}
use ipbus.Hw.ReturnReply.{returnreply}
use ipbus.Hw.Run.{oldest_answered, on_answer, on_control, on_reply}
use ipbus.Hw.Run.Timer.{Retimed, oldest_answered-Retimed}
use ipbus.Hw.Run.Parsed.{Parsed, parse-Parsed}
use ipbus.Hw.Run.HandBack.{Entered, Answered, HasSlotsBehind, hand_back}

on_answer-Answered :
    (conn : Conn) (now : ℕ) (h : Hw) (id : ℕ) (bytes : List ℕ) (req : Packet) (fs qs : List ℕ)
    → Works conn
    → Inv h fs qs []
    → CanSend h
    → HasSlotsBehind h
    → get h.flying id ≡ some req
    → OrPanics (Parsed h id bytes req) (parse req bytes)
    → OrPanics (Answered h id bytes h.arrived fs qs) (on_answer conn now id bytes req h)
unfolding on_answer
on_answer-Answered conn now h id bytes req fs qs works v can slots found parsed =
    OrPanics-bind (Retimed h0) (Answered h id bytes h.arrived fs qs) (oldest_answered now id h0) _
      (oldest_answered-Retimed now id h0)
      (λ h1 t.
        subst (λ g. OrPanics (Answered h id bytes h.arrived fs qs) (rest_of g)) (sym t.same)
          (sending t.timer t.id))
  where
    h0 : Hw
    h0 = record h { inflight = h.inflight - 1 }

    here : has h.flying id ≡ true
    here = has-some h.flying id found

    rest_of : Hw → Outcome Hw
    rest_of h1 = sendnext conn now (record h1 { flying = PacketLog.remove h1.flying id }) >>= λ r.
        parse req bytes >>= λ q.
        returnreply (record (r.0) { replied = PacketLog.add r.0.replied id q.0 })

    sending :
        (timer : Ticker) (tid : ℕ)
        → OrPanics
            (Answered h id bytes h.arrived fs qs)
            (rest_of (record h { inflight = h.inflight - 1; timedout = timer; timeoutid = tid }))
    sending timer tid =
        let h1 = record h {
          inflight = h.inflight - 1;
          timedout = timer;
          timeoutid = tid;
          flying = PacketLog.remove h.flying id;
        } in
        let s =
          sendnext-Sends conn now h1 fs qs (id ∷ []) works
            (record {
              waits = can.waits;
              tracks = can.tracks;
              reads = can.reads;
              slots = omega arith;
            })
            (landed id v here) in
        rw s.returns (
          OrPanics-bind (Parsed h id bytes req) (Answered h id bytes h.arrived fs qs)
            (parse req bytes) _ parsed
            (λ q e.
              hand_back h id bytes fs qs q.0 h1 (sendnext conn now h1) s
                (record { req = req; e = q.1; found = found; parsed = e.call }) e.keyed refl refl
                refl refl refl refl refl refl refl))

no_answer :
    (h : Hw) (id : ℕ) (bytes : List ℕ) (fs qs : List ℕ)
    → Inv h fs qs []
    → CanSend h
    → get h.flying id ≡ none
    → Answered h id bytes h.arrived fs qs h
no_answer h id bytes fs qs v can gone = record {
  log = h.replied;
  moved = [];
  rest = qs;
  over = [];
  left = fs ++ [];
  sent = [];
  packs = [];
  entered = Entered.unknown gone refl;
  queue_split = refl;
  flight_split = refl;
  inv = subst (λ ids. Inv h ids qs []) (sym (append-nil fs)) v;
  can_send = can;
  went_out = tt;
  wrote = sym (append-nil h.written);
  held = λ _. refl;
  found = tt;
  are_for = tt;
  delivered = sym (append-nil h.delivered);
  same_arrived = refl;
  same_next = refl;
  same_taken = refl;
  moving = λ m. subst (λ ids. IsMoving h ids qs) (sym (append-nil fs)) m;
}

-- What was entered, from a state that differs in the tracker of received ids and in the datagrams.
tracked-Entered :
    (h : Hw) (t : Tracker) (arrived : List (List ℕ)) (id : ℕ) (bytes : List ℕ)
    (log : PacketLog Packet)
    → Entered (record h { received = t; arrived = arrived }) id bytes log
    → Entered h id bytes log
tracked-Entered h t arrived id bytes log (Entered.unknown e f) = Entered.unknown e f
tracked-Entered h t arrived id bytes log (Entered.known req req' e f g k) =
    Entered.known req req' e f g k

tracked :
    (h : Hw) (t : Tracker) (arrived : List (List ℕ)) (id : ℕ) (bytes : List ℕ) (fs qs : List ℕ)
    (h' : Hw)
    → Answered (record h { received = t; arrived = arrived }) id bytes arrived fs qs h'
    → Answered h id bytes arrived fs qs h'
tracked h t arrived id bytes fs qs h' a = record {
  log = a.log;
  moved = a.moved;
  rest = a.rest;
  over = a.over;
  left = a.left;
  sent = a.sent;
  packs = a.packs;
  entered = tracked-Entered h t arrived id bytes a.log a.entered;
  queue_split = a.queue_split;
  flight_split = a.flight_split;
  inv = a.inv;
  can_send = a.can_send;
  went_out = a.went_out;
  wrote = a.wrote;
  held = a.held;
  found = a.found;
  are_for = a.are_for;
  delivered = a.delivered;
  same_arrived = a.same_arrived;
  same_next = a.same_next;
  same_taken = a.same_taken;
  moving = a.moving;
}

-- The packet id in a datagram.
abbrev pub id_of : Slice → ℕ
id_of rep = (PacketHeader.decode zero_header rep.bytes).0.pid

-- On a connection on which no write fails and whose users receive whatever is sent to them, a control
-- packet of whole words with an id other than 0 comes from the device, and `flyingids` has a slot for
-- one packet more than may go out now. The step never runs or waits for ever; it panics or returns.
-- Where it returns, the packet in flight under the id of the datagram, if there is one, was entered
-- with what `parse` makes of the datagram for it; some of the oldest queued packets went out, in order
-- (none while a lost packet is being handled), and just their requests were written; then the packets
-- whose responses went out on the channels of the users were the oldest of those in flight, without a
-- gap, each with the transactions that its user asked for and with the replies that `parse` makes for
-- them of a datagram with the id of the packet that has arrived, one for each transaction at least;
-- the next id and the packets taken from the users are the same, and the invariant holds again.
pub on_reply-Answered :
    (conn : Conn) (now : ℕ) (h : Hw) (rep : Slice) (fs qs : List ℕ)
    → Works conn
    → Inv h fs qs []
    → CanSend h
    → HasSlotsBehind h
    → IsControl rep.bytes
    → length rep.bytes % 4 ≡ 0
    → id_of rep ≢ 0
    → OrPanics
        (Answered h (id_of rep) rep.bytes (h.arrived ++ (rep.bytes ∷ [])) fs qs)
        (on_reply conn now rep h)
unfolding on_reply on_control
on_reply-Answered conn now h rep fs qs works v can slots c words nonzero =
    OrPanics-bind (λ _. Unit) (Answered h id rep.bytes arrived fs qs) (track h.received id) _
      (track-OrPanics h.received id)
      (λ t _. rw (==_ne id 0 nonzero) (
        OrPanics-map (Answered (with_datagram t) id rep.bytes arrived fs qs)
          (Answered h id rep.bytes arrived fs qs) _ (tracked h t arrived id rep.bytes fs qs)
          (by_flight t (Option-cases (get h.flying id)))))
  where
    id : ℕ
    id = id_of rep

    arrived : List (List ℕ)
    arrived = h.arrived ++ (rep.bytes ∷ [])

    with_datagram : Tracker → Hw
    with_datagram t = record h { received = t; arrived = arrived }

    inv : (t : Tracker) → Inv (with_datagram t) fs qs []
    inv t = arrives (rep.bytes ∷ []) [] v

    can_still : (t : Tracker) → CanSend (with_datagram t)
    can_still t = record {
      waits = can.waits;
      tracks = can.tracks;
      reads = can.reads;
      slots = can.slots;
    }

    by_flight :
        (t : Tracker)
        → (get h.flying id ≡ none) ⊎ ((req : Packet) × (get h.flying id ≡ some req))
        → OrPanics
            (Answered (with_datagram t) id rep.bytes arrived fs qs)
            (on_control conn now id rep.bytes (get h.flying id) (with_datagram t))
    by_flight t (inl unknown) = rw unknown (
        OrPanics-if (Answered (with_datagram t) id rep.bytes arrived fs qs) (id == h.resent)
          (done (with_datagram t)) panic
          (no_answer (with_datagram t) id rep.bytes fs qs (inv t) (can_still t) unknown) tt)
    by_flight t (inr (req, found)) = rw found (
        on_answer-Answered conn now (with_datagram t) id rep.bytes req fs qs works (inv t)
          (can_still t) slots found
          (parse-Parsed (with_datagram t) id rep.bytes h.arrived req c words
            (v.flying_keyed id req found) refl refl))
