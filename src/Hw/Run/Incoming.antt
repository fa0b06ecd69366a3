-- ===== src/Hw/Run/Incoming.antt =====
-- A packet of a user comes in.
use ipbus.Common.{
  ℕ, ◌+◌, ◌≤◌, ◌<◌, ◌≡◌, ◌≢◌, refl, ap, false, List, [], ◌∷◌, ◌++◌, map, length, ◌⊎◌, true,
  Bool-cases, inl, inr, arith, ◌==◌, u16,
}
use native.Mathlib.Decide.{dec_lt}
use ipbus.Outcome.{Outcome, done, panic}
use ipbus.IdLog.Effects.{add-Becomes, add_full}
use ipbus.Packet.{Packet}
use ipbus.Packet.Headed.{writeheader}
use ipbus.PacketLog
use ipbus.Hw.{Hw, Conn, nextid}
use ipbus.Hw.Ids.{IsId, follow, next-IsId}
use ipbus.Hw.Inv.{Inv, asked, asked-append_other, asked-append_self}
use ipbus.Hw.Inv.Moves.{queued}
use ipbus.Hw.SendNext.Round.{Works, CanSend, after_send}
use ipbus.Hw.SendNext.Window.{Found, sendnext-Sends}
use ipbus.Hw.Moving.{IsMoving, Sends-Moving}
use ipbus.Hw.Run.{on_incoming}

nextid_lem :
    (h : Hw) → IsId h.next_id → nextid h ≡ (h.next_id, record h { next_id = follow h.next_id })
unfolding nextid
nextid_lem h v = elim (Bool-cases (h.next_id == 65535)) [
  | inl last ↦ rw last refl
  | inr other ↦ rw other (
      ap (λ n. (h.next_id, record h { next_id = n })) {x = u16 (h.next_id + 1)} {y = h.next_id + 1}
        (ground arith))
]

-- The state with the packet queued, before `sendnext`.
abbrev pub with_queued : Hw → Packet → Hw
with_queued h pack = record h {
  next_id = follow h.next_id;
  tosend = PacketLog.add h.tosend h.next_id (writeheader pack h.next_id).0;
  taken = h.taken ++ ((writeheader pack h.next_id).0 ∷ []);
}

-- The state after a packet came in and some queued packets went out.
pub record Accepted (h : Hw) (pack : Packet) (fs qs : List ℕ) (out : Outcome Hw) : Type 0 where
  pub h' : Hw
  pub moved : List ℕ
  pub rest : List ℕ
  pub packs : List Packet
  pub returns : out ≡ done h'
  pub split : qs ++ (h.next_id ∷ []) ≡ moved ++ rest
  pub inv : Inv h' (fs ++ moved) rest []
  pub can_send : CanSend h'
  pub kept : h' ≡ after_send (with_queued h pack) h'
  pub found : Found (PacketLog.add h.tosend h.next_id (writeheader pack h.next_id).0) moved packs
  pub wrote : h'.written ≡ h.written ++ map (λ p. p.request_bytes) packs
  pub full : h.handlinglost ≡ false → (rest ≡ []) ⊎ (h'.inflight ≡ h'.maxflight)
  pub held : h.handlinglost ≡ true → moved ≡ []
  pub moving : IsMoving h fs qs → IsMoving h' (fs ++ moved) rest

pub writeheader-id : (p : Packet) (id : ℕ) → (writeheader p id).0.id ≡ id
unfolding writeheader
writeheader-id p id = refl

module _ (conn : Conn) (now : ℕ) (h : Hw) (pack : Packet) (fs qs : List ℕ)
    (v : Inv h fs qs []) where
  next_id-IsId : IsId h.next_id
  next_id-IsId = next-IsId (fs ++ qs) h.next_id v.in_line

  not_zero : h.next_id ≢ 0
  not_zero e = omega (arith, next_id-IsId)

  -- Where fewer than 256 packets are queued, a packet of a user is accepted: it gets the next id in
  -- its header, is queued behind the others, and some of the queued packets go out.
  pub on_incoming-Accepted :
      Works conn → CanSend h → length qs < 256 → Accepted h pack fs qs (on_incoming conn now pack h)
  unfolding on_incoming
  on_incoming-Accepted works can room =
      let added =
        add-Becomes h.queuedids qs h.next_id v.queued_ids not_zero (omega (arith, v.queued_max)) in
      let p' = (writeheader pack h.next_id).0 in
      let h2 = record h {
        next_id = follow h.next_id;
        tosend = PacketLog.add h.tosend h.next_id p';
        queuedids = added.i';
        taken = h.taken ++ (p' ∷ []);
      } in
      let v2 : Inv h2 fs (qs ++ (h.next_id ∷ [])) [] =
        queued (asked (h.taken ++ (p' ∷ []))) p' [] added.i' v
          (λ k. asked-append_other h.taken p' h.next_id k (writeheader-id pack h.next_id))
          (asked-append_self h.taken p' h.next_id (writeheader-id pack h.next_id)) added.holds
          added.same_max in
      let s =
        sendnext-Sends conn now h2 fs (qs ++ (h.next_id ∷ [])) [] works
          (record { waits = can.waits; tracks = can.tracks; reads = can.reads; slots = can.slots })
          v2 in
      record {
        h' = s.h';
        moved = s.moved;
        rest = s.rest;
        packs = s.packs;
        returns =
            rw (nextid_lem h next_id-IsId, writeheader-id pack h.next_id, added.returns, s.returns)
              refl;
        split = s.split;
        inv = s.inv;
        can_send = s.can_send;
        kept = s.kept;
        found = s.found;
        wrote = s.wrote;
        full = s.full;
        held = s.held;
        moving = λ m. Sends-Moving h2 fs (qs ++ (h.next_id ∷ [])) s v2 m.room m.first_waits;
      }

  -- Where 256 packets are queued, `Run` panics.
  pub on_incoming_full : 256 ≤ length qs → on_incoming conn now pack h ≡ panic
  unfolding on_incoming
  on_incoming_full full =
      rw
        (
          nextid_lem h next_id-IsId,
          writeheader-id pack h.next_id,
          add_full h.queuedids qs h.next_id v.queued_ids not_zero (omega (arith, v.queued_max)),
        )
        refl

-- On a connection on which no write fails, with a slot in `flyingids` for each packet that may go out,
-- a packet of a user comes in. Where fewer than 256 packets are queued, it is accepted without a panic
-- or an endless loop: it gets the next id in its header and is queued behind the others, and some of
-- the oldest queued packets go out, in order, until all are out or `maxflight` are in flight (none
-- while a lost packet is being handled). The invariant holds again, nothing goes out on the channels
-- of the users, and the packets that were sent are still in order. Where 256 packets are queued, `Run`
-- panics.
pub on_incoming_lem :
    (conn : Conn) (now : ℕ) (h : Hw) (pack : Packet) (fs qs : List ℕ)
    → Inv h fs qs []
    → Works conn
    → CanSend h
    → ((length qs < 256) × Accepted h pack fs qs (on_incoming conn now pack h))
      ⊎ ((256 ≤ length qs) × (on_incoming conn now pack h ≡ panic))
on_incoming_lem conn now h pack fs qs v works can = elim (dec_lt (length qs) 256) [
  | yes room ↦ inl (room, on_incoming-Accepted conn now h pack fs qs v works can room)
  | no full ↦ inr (omega arith, on_incoming_full conn now h pack fs qs v (omega arith))
]
