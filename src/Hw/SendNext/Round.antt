-- ===== src/Hw/SendNext/Round.antt =====
-- One round of `sendnext`, where no write fails.
use ipbus.Common.{
  ℕ, ◌+◌, ◌<◌, ◌≡◌, ◌≢◌, refl, sym, ap, ◌∙◌, true, false, ◌||◌, List, [], ◌∷◌, ◌++◌, length,
  length-append, Option, none, some, Bool-cases, Option-cases, inl, inr, arith, ◌==◌, ==_self,
  ==_ne,
}
use ipbus.Outcome.{Outcome, done}
use ipbus.Protocol.{Error}
use ipbus.IdLog.Effects.{add-Becomes, remove-Becomes}
use ipbus.IdLog.Track.{IsTracker, track_lem}
use ipbus.Packet.{Packet}
use ipbus.Packet.Send.Delivery.{AllReceive}
use ipbus.PacketLog
use ipbus.PacketLog.{has, get, is_some}
use ipbus.Hw.{Hw, Conn, Ticker, new_ticker}
use ipbus.Hw.Write.{sendpack, write}
use ipbus.Hw.Ids.{mem, InLine, IsId}
use ipbus.Hw.Inv.{Inv, HasSlots}
use ipbus.Hw.Inv.Moves.{launched}
use ipbus.Hw.SendNext.{start_timer, launch, send_oldest}

-- Every write takes the whole datagram.
abbrev pub Works : Conn → Type 0
Works conn = (sent : List (List ℕ)) (bytes : List ℕ) → conn sent bytes ≡ (length bytes, none)

-- The state after `sendnext`: the components that it does not touch are those of before.
abbrev pub after_send : Hw → Hw → Hw
after_send h h' = record h {
  tosend = h'.tosend;
  flying = h'.flying;
  queuedids = h'.queuedids;
  flyingids = h'.flyingids;
  inflight = h'.inflight;
  timedout = h'.timedout;
  timeoutid = h'.timeoutid;
  sentout = h'.sentout;
  written = h'.written;
  bytessent = h'.bytessent;
  packssent = h'.packssent;
}

-- What `sendnext` relies on beside the flow of packets.
pub record CanSend (h : Hw) : Type 0 where
  pub waits : 0 < h.waittime
  pub tracks : IsTracker h.sentout
  pub reads : AllReceive h.readers
  pub slots : HasSlots h

-- The state after a round that sent the packet `p` with the id `x`.
pub record Round (h : Hw) (x : ℕ) (fs qs ms : List ℕ) (out : Outcome (Hw × Option Error))
    : Type 0 where
  pub h' : Hw
  pub p : Packet
  pub returns : out ≡ done (h', none)
  pub found : get h.tosend x ≡ some p
  pub inv : Inv h' (fs ++ (x ∷ [])) qs ms
  pub can_send : CanSend h'
  pub kept : h' ≡ after_send h h'
  pub one_less : h'.tosend ≡ PacketLog.remove h.tosend x
  pub wrote : h'.written ≡ h.written ++ (p.request_bytes ∷ [])

pub record Timed (first : ℕ) (h : Hw) : Type 0 where
  pub timer : Ticker
  pub id : ℕ
  pub returns : start_timer first h ≡ done (record h { timedout = timer; timeoutid = id })

pub start_timer_lem : (first : ℕ) (h : Hw) → 0 < h.waittime → Timed first h
unfolding start_timer new_ticker
start_timer_lem first h w = elim (Bool-cases (h.inflight == 1)) [
  | inl one ↦ record {
    timer = Ticker.every h.waittime;
    id = first;
    returns = rw (one, ==_ne h.waittime 0 (λ e. omega arith)) refl;
  }
  | inr more ↦ record { timer = h.timedout; id = h.timeoutid; returns = rw more refl }
]

some_packet : (h : Hw) (x : ℕ) → has h.tosend x ≡ true → (p : Packet) × (get h.tosend x ≡ some p)
unfolding has
some_packet h x e = elim (Option-cases (get h.tosend x)) [
  | inl none_there ↦ absurd (not_there (sym (ap is_some none_there) ∙ e))
  | inr there ↦ there
]
  where
    not_there : false ≢ true
    not_there q = cc

IsId-middle : (xs ys : List ℕ) (x next : ℕ) → InLine (xs ++ (x ∷ ys)) next → IsId x
IsId-middle [] ys x next h = h.0
IsId-middle (y ∷ xs) ys x next h = IsId-middle xs ys x next h.2

pub send_oldest-Round :
    (conn : Conn) (now : ℕ) (h : Hw) (x : ℕ) (fs qs ms : List ℕ)
    → Works conn
    → CanSend h
    → h.inflight < h.maxflight
    → Inv h fs (x ∷ qs) ms
    → Round h x fs qs ms (send_oldest conn now h (x, true))
unfolding send_oldest sendpack write launch
send_oldest-Round conn now h x fs qs ms works can room v =
    let (p, found) = some_packet h x (v.tosend_is x ∙ ap (λ b. b || mem qs x) (==_self x)) in
    let removed = remove-Becomes h.queuedids x qs v.queued_ids in
    let added =
      add-Becomes h.flyingids fs x v.flying_ids (nonzero (IsId-middle fs qs x h.next_id v.in_line))
        (omega (arith, can.slots, v.flying_ids.counted, v.flying_max)) in
    let tracked = track_lem h.sentout p.id can.tracks in
    let h1 = record h {
      queuedids = removed.i';
      tosend = PacketLog.remove h.tosend x;
      sentout = tracked.t';
      written = h.written ++ (p.request_bytes ∷ []);
      bytessent = h.bytessent + length p.request_bytes;
      packssent = h.packssent + 1;
      flying = PacketLog.add h.flying x (record p { sent = now });
      flyingids = added.i';
      inflight = h.inflight + 1;
    } in
    let timed = start_timer_lem x h1 can.waits in
    record {
      h' = record h1 { timedout = timed.timer; timeoutid = timed.id };
      p = p;
      returns =
          rw
            (
              removed.returns,
              found,
              tracked.returns,
              works h.written p.request_bytes,
              added.returns,
              timed.returns,
            )
            refl;
      found = found;
      inv =
          launched x (record p { sent = now }) ms removed.i' added.i' v room
            (v.tosend_keyed x p found) removed.holds removed.same_max added.holds added.same_max;
      can_send = record {
        waits = can.waits;
        tracks = tracked.valid;
        reads = can.reads;
        slots = omega (
          arith,
          can.slots,
          v.flying_ids.counted,
          added.holds.counted,
          length-append fs (x ∷ []),
        );
      };
      kept = refl;
      one_less = refl;
      wrote = refl;
    }
  where
    nonzero : IsId x → x ≢ 0
    nonzero i e = omega arith
