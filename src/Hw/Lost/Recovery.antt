-- ===== src/Hw/Lost/Recovery.antt =====
-- What `handlelost` does once the status has come.
use ipbus.Common.{
  ℕ, ◌+◌, ◌≡◌, refl, sym, ap, subst, ◌∙◌, true, false, List, [], ◌∷◌, ◌++◌, map, length,
  append_assoc, ◌⊎◌, Bool-cases, inl, inr, if◌then◌else◌,
}
use ipbus.Outcome.{done, panic, ◌>>=◌, OrPanics, OrPanics-bind, OrPanics-if}
use ipbus.Packet.{Packet}
use ipbus.Status.{TargetStatus, new_resend_packet}
use ipbus.Hw.{Hw, Conn}
use ipbus.Hw.Write.{write, sendresendrequest}
use ipbus.Hw.Timeout.{updatetimeout}
use ipbus.Hw.Inv.{Inv}
use ipbus.Hw.Moving.{IsMoving, Sends-Moving}
use ipbus.Hw.SendNext.{sendnext}
use ipbus.Hw.SendNext.Round.{Works, CanSend}
use ipbus.Hw.SendNext.Window.{Found, sendnext-Sends}
use ipbus.Hw.Run.Timer.{Retimed, updatetimeout-Retimed}
use ipbus.Hw.Lost.{reports, resend_loop, recover, lost_ends}
use ipbus.Hw.Lost.Restart.{Again, Restarted, restarts}

-- The state after the recovery: `datagrams` went out first, then some queued packets.
pub record Recovered (h : Hw) (fs qs : List ℕ) (datagrams : List (List ℕ)) (h' : Hw) : Type 0 where
  pub moved : List ℕ
  pub rest : List ℕ
  pub packs : List Packet
  pub split : qs ≡ moved ++ rest
  pub inv : Inv h' (fs ++ moved) rest []
  pub can_send : CanSend h'
  pub found : Found h.tosend moved packs
  pub wrote : h'.written ≡ h.written ++ (datagrams ++ map (λ p. p.request_bytes) packs)
  pub full : (rest ≡ []) ⊎ (h'.inflight ≡ h'.maxflight)
  pub over : h'.handlinglost ≡ false
  pub same_delivered : h'.delivered ≡ h.delivered
  pub same_next : h'.next_id ≡ h.next_id
  pub same_taken : h'.taken ≡ h.taken
  pub same_arrived : h'.arrived ≡ h.arrived
  pub moving : IsMoving h fs qs → IsMoving h' (fs ++ moved) rest

-- The end of `handlelost`, from a state in which the datagrams have been written again.
finishes :
    (conn : Conn) (now : ℕ) (h : Hw) (fs qs : List ℕ) (datagrams : List (List ℕ)) (h1 : Hw)
    → Works conn
    → Inv h1 fs qs []
    → CanSend h1
    → h1.tosend ≡ h.tosend
    → h1.written ≡ h.written ++ datagrams
    → h1.delivered ≡ h.delivered
    → h1.next_id ≡ h.next_id
    → h1.taken ≡ h.taken
    → h1.arrived ≡ h.arrived
    → (IsMoving h fs qs → IsMoving h1 fs qs)
    → OrPanics
        (Recovered h fs qs datagrams)
        (sendnext conn now (record h1 { handlinglost = false }) >>= λ r. done (r.0))
finishes conn now h fs qs datagrams h1 works v can same_tosend wrote same_delivered same_next
      same_taken same_arrived moves =
    let h2 = record h1 { handlinglost = false } in
    let s =
      sendnext-Sends conn now h2 fs qs [] works
        (record { waits = can.waits; tracks = can.tracks; reads = can.reads; slots = can.slots })
        v in
    rw s.returns (record {
      moved = s.moved;
      rest = s.rest;
      packs = s.packs;
      split = s.split;
      inv = s.inv;
      can_send = s.can_send;
      found = subst (λ l. Found l s.moved s.packs) same_tosend s.found;
      wrote =
          s.wrote
          ∙ ap (λ w. w ++ map (λ p. p.request_bytes) s.packs) wrote
          ∙ append_assoc h.written datagrams (map (λ p. p.request_bytes) s.packs);
      full = s.full refl;
      over = ap (λ g. g.handlinglost) s.kept;
      same_delivered = ap (λ g. g.delivered) s.kept ∙ same_delivered;
      same_next = ap (λ g. g.next_id) s.kept ∙ same_next;
      same_taken = ap (λ g. g.taken) s.kept ∙ same_taken;
      same_arrived = ap (λ g. g.arrived) s.kept ∙ same_arrived;
      moving = λ m. Sends-Moving h2 fs qs s v (moves m).room (moves m).first_waits;
    })

-- A state with another timer, before the end.
retimed :
    (conn : Conn) (now : ℕ) (h : Hw) (fs qs : List ℕ) (datagrams : List (List ℕ)) (h1 h2 : Hw)
    → Works conn
    → Inv h1 fs qs []
    → CanSend h1
    → h1.tosend ≡ h.tosend
    → h1.written ≡ h.written ++ datagrams
    → h1.delivered ≡ h.delivered
    → h1.next_id ≡ h.next_id
    → h1.taken ≡ h.taken
    → h1.arrived ≡ h.arrived
    → (IsMoving h fs qs → IsMoving h1 fs qs)
    → Retimed h1 h2
    → OrPanics
        (Recovered h fs qs datagrams)
        (sendnext conn now (record h2 { handlinglost = false }) >>= λ r. done (r.0))
retimed conn now h fs qs datagrams h1 h2 works v can same_tosend wrote same_delivered same_next
      same_taken same_arrived moves t =
    subst
      (λ g.
        OrPanics (Recovered h fs qs datagrams)
          (sendnext conn now (record g { handlinglost = false }) >>= λ r. done (r.0)))
      (sym t.same)
      (finishes conn now h fs qs datagrams (record h1 { timedout = t.timer; timeoutid = t.id })
        works v
        (record { waits = can.waits; tracks = can.tracks; reads = can.reads; slots = can.slots })
        same_tosend wrote same_delivered same_next same_taken same_arrived
        (λ m.
          let k = moves m in record { room = k.room; first_waits = k.first_waits; full = k.full }))

module _ (conn : Conn) (now : ℕ) (h : Hw) (st : TargetStatus) (fs qs : List ℕ) (works : Works conn)
    (v : Inv h fs qs []) (can : CanSend h) where
  sent_case :
      reports h.timeoutid st.sent ≡ true
      → OrPanics (Recovered h fs qs (new_resend_packet h.timeoutid ∷ [])) (lost_ends conn now st h)
  unfolding lost_ends recover sendresendrequest write
  sent_case sent =
      let h1 = record h {
        written = h.written ++ (new_resend_packet h.timeoutid ∷ []);
        bytessent = h.bytessent + length (new_resend_packet h.timeoutid);
        packssent = h.packssent + 1;
        resent = h.timeoutid;
      } in
      rw (sent, works h.written (new_resend_packet h.timeoutid))
        (OrPanics-bind (Retimed h1) (Recovered h fs qs (new_resend_packet h.timeoutid ∷ []))
          (updatetimeout now h1) _ (updatetimeout-Retimed now h1)
          (λ h2 t.
            retimed conn now h fs qs (new_resend_packet h.timeoutid ∷ []) h1 h2 works v
              (record {
                waits = can.waits;
                tracks = can.tracks;
                reads = can.reads;
                slots = can.slots;
              })
              refl refl refl refl refl refl
              (λ m. record { room = m.room; first_waits = m.first_waits; full = m.full }) t))

  received_case :
      reports h.timeoutid st.sent ≡ false
      → reports h.timeoutid st.received ≡ true
      → lost_ends conn now st h ≡ panic
  unfolding lost_ends recover
  received_case sent received = rw (sent, received) refl

  lost_case :
      reports h.timeoutid st.sent ≡ false
      → reports h.timeoutid st.received ≡ false
      → (r : Restarted h fs qs (resend_loop conn (h.flyingids.n + 1) now h.timeoutid false h))
      → OrPanics (Recovered h fs qs r.datagrams) (lost_ends conn now st h)
  unfolding lost_ends recover
  lost_case sent received r =
      rw (sent, received, r.returns)
        (OrPanics-bind (Retimed r.h') (Recovered h fs qs r.datagrams)
          (if r.again then updatetimeout now r.h' else done r.h') _
          (OrPanics-if (Retimed r.h') r.again (updatetimeout now r.h') (done r.h')
            (updatetimeout-Retimed now r.h')
            (record { timer = (r.h').timedout; id = (r.h').timeoutid; same = refl }))
          (λ h2 t.
            retimed conn now h fs qs r.datagrams r.h' h2 works r.inv
              (subst CanSend (sym r.kept) (record {
                waits = can.waits;
                tracks = can.tracks;
                reads = can.reads;
                slots = can.slots;
              }))
              (ap (λ g. g.tosend) r.kept) r.wrote (ap (λ g. g.delivered) r.kept)
              (ap (λ g. g.next_id) r.kept) (ap (λ g. g.taken) r.kept) (ap (λ g. g.arrived) r.kept)
              (subst (λ g. IsMoving h fs qs → IsMoving g fs qs) (sym r.kept)
                (λ m. record { room = m.room; first_waits = m.first_waits; full = m.full }))
              t))

  -- On a connection on which no write fails, with a slot in `flyingids` for each packet that may go
  -- out, `handlelost` goes on from the status of the device; this never runs for ever. If the device
  -- has received the packet but sent no reply, the code panics. In the other cases it panics or
  -- returns. Where it returns, it has written, if the device has sent a reply to the timed-out packet,
  -- one request to resend it; if the device has not received it, the requests of this packet and of
  -- those behind it in order, up to the first that is not in flight (none, if the timed-out id is not
  -- among those sent). Then some of the oldest queued packets have gone out, in order, until all are out
  -- or `maxflight` are in flight. Nothing goes out on the channels of the users, and the invariant holds
  -- again.
  pub lost_ends_lem :
      ((reports h.timeoutid st.sent ≡ true)
        × OrPanics
            (Recovered h fs qs (new_resend_packet h.timeoutid ∷ []))
            (lost_ends conn now st h))
      ⊎ (((reports h.timeoutid st.sent ≡ false)
            × (reports h.timeoutid st.received ≡ true)
            × (lost_ends conn now st h ≡ panic))
          ⊎ ((reports h.timeoutid st.sent ≡ false)
              × (reports h.timeoutid st.received ≡ false)
              × ((datagrams : List (List ℕ)) × Again h fs datagrams
                  × OrPanics (Recovered h fs qs datagrams) (lost_ends conn now st h))))
  lost_ends_lem = elim (Bool-cases (reports h.timeoutid st.sent)) [
    | inl sent ↦ inl (sent, sent_case sent)
    | inr not_sent ↦ elim (Bool-cases (reports h.timeoutid st.received)) [
      | inl received ↦ inr (inl (not_sent, received, received_case not_sent received))
      | inr not_received ↦
          let r = restarts conn now h fs qs works v in
          inr (
            inr (not_sent, not_received, (r.datagrams, r.which, lost_case not_sent not_received r)))
    ]
  ]
