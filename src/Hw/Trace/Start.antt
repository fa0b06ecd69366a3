-- ===== src/Hw/Trace/Start.antt =====
-- The state of `newhw`, and the steps that keep the flow of packets as it is.
use ipbus.Common.{
  ℕ, ◌+◌, ◌<◌, ◌≡◌, refl, sym, ap, subst, ◌∙◌, Bool, Bool-cases, inl, inr, true, false, List, [],
  ◌∷◌, none, some, arith, ltb, ◌==◌, if◌then◌else◌, length, ◌++◌, append-nil, append_assoc,
}
use ipbus.Outcome.{Outcome, done, panic, stuck, bind-done}
use ipbus.IdLog.Ring.{new_id_log-Holds}
use ipbus.IdLog.Track.{new_tracker-IsTracker}
use ipbus.IdLog.{track, new_id_log}
use ipbus.Packet.{Packet}
use ipbus.PacketLog.{new_packet_log, has, get, lookup}
use ipbus.Status.{Slice, TargetStatus, parse_status, new_status_packet}
use ipbus.Hw.{Hw, Conn, stopped, new_hw}
use ipbus.Hw.Write.{write, sendstatusrequest}
use ipbus.Hw.Inv.{IsFor, Answers, Keyed, Inv, asked}
use ipbus.Hw.Inv.Back.{arrives}
use ipbus.Hw.Moving.{IsMoving}
use ipbus.Hw.SendNext.Round.{Works, CanSend}
use ipbus.Hw.Run.{queue_status, on_reply, config_starts, report}
use ipbus.Hw.Run.Reply.{id_of}
use ipbus.Hw.Lost.{lost_starts}

has_none : (k : ℕ) → has {P = Packet} new_packet_log k ≡ false
unfolding has get lookup
has_none k = refl

get_none : (P : ℕ → Packet → Type 0) → Keyed P new_packet_log
unfolding get lookup
get_none P k p e = absurd (nothing e)
  where
    nothing : none ≡ some p → ⊥
    nothing e = cc

pub new_hw-Inv : (waittime : ℕ) → Inv (new_hw waittime) [] [] []
unfolding new_hw new_id_log
new_hw-Inv waittime = record {
  flying_ids = new_id_log-Holds 32 (omega arith);
  flying_max = refl;
  queued_ids = new_id_log-Holds 256 (omega arith);
  queued_max = refl;
  in_line = (omega arith, omega arith);
  tosend_map = tt;
  flying_map = tt;
  tosend_is = has_none;
  one_of = λ k. ground (arith, has_none k);
  not_both = λ k. ground (arith, has_none k);
  not_missing = λ k. refl;
  tosend_keyed = get_none (IsFor (asked []));
  flying_keyed = get_none (IsFor (asked []));
  replied_keyed = get_none (Answers (asked []) []);
  counted = refl;
  window = omega arith;
}

pub new_hw-Moving : (waittime : ℕ) → IsMoving (new_hw waittime) [] []
unfolding new_hw
new_hw-Moving waittime = record { room = omega arith; first_waits = tt; full = λ l. inl refl }

pub new_hw-CanSend : (waittime : ℕ) → 0 < waittime → CanSend (new_hw waittime)
unfolding new_hw new_id_log
new_hw-CanSend waittime h = record {
  waits = h;
  tracks = new_tracker-IsTracker 16 (omega arith);
  reads = λ past chan. refl;
  slots = omega arith;
}

-- The components that the flow of packets does not use may change.
pub record SameFlow (h h' : Hw) : Type 0 where
  pub inv : (fs qs : List ℕ) → Inv h fs qs [] → Inv h' fs qs []
  pub can_send : CanSend h → CanSend h'
  pub same_delivered : h'.delivered ≡ h.delivered
  pub same_next : h'.next_id ≡ h.next_id
  pub same_taken : h'.taken ≡ h.taken
  pub more : List (List ℕ)
  pub arrives : h'.arrived ≡ h.arrived ++ more
  pub moving : (fs qs : List ℕ) → IsMoving h fs qs → IsMoving h' fs qs

-- One whose result is known.
returned_one : (P : Hw → Type 0) {a b : Hw} → done a ≡ done b → P a → P b
returned_one P {a} e h = subst P (ap value e) h
  where
    value : Outcome Hw → Hw
    value (done b) = b
    value panic = a
    value stuck = a

if_true {ℓ} : {A : Type ℓ} {b : Bool} (x y : A) → b ≡ true → (if b then x else y) ≡ x
if_true x y e = ap (λ b. if b then x else y) e

pub if_false {ℓ} : {A : Type ℓ} {b : Bool} (x y : A) → b ≡ false → (if b then x else y) ≡ y
if_false x y e = ap (λ b. if b then x else y) e

status_queued : (st : TargetStatus) (h h' : Hw) → queue_status st h ≡ done h' → SameFlow h h'
unfolding queue_status
status_queued st h h' e = elim (Bool-cases (ltb (length h.statuses) 10)) [
  | inl room ↦ returned_one (SameFlow h) (sym (if_true _ _ room) ∙ e) (record {
    inv = λ fs qs v. v;
    can_send = λ can. record {
      waits = can.waits;
      tracks = can.tracks;
      reads = can.reads;
      slots = can.slots;
    };
    same_delivered = refl;
    same_next = refl;
    same_taken = refl;
    more = [];
    arrives = sym (append-nil h.arrived);
    moving = λ fs qs m. record { room = m.room; first_waits = m.first_waits; full = m.full };
  })
  | inr full ↦ absurd (apart (sym (if_false _ _ full) ∙ e))
]
  where
    apart : stuck ≡ done h' → ⊥
    apart e = cc

pub on_reply_status :
    (conn : Conn) (now : ℕ) (rep : Slice) (h h' : Hw)
    → id_of rep ≡ 0
    → on_reply conn now rep h ≡ done h'
    → SameFlow h h'
unfolding on_reply
on_reply_status conn now rep h h' zero_id e =
    let (t, _, e1) = bind-done (track h.received (id_of rep)) _ e in
    let (r, _, e2) =
      bind-done (parse_status rep) _ (sym (if_true _ _ (ap (λ n. n == 0) zero_id)) ∙ e1) in
    let h1 = record h { received = t; arrived = h.arrived ++ (rep.bytes ∷ []) } in
    let s = status_queued r.0 h1 h' e2 in
    record {
      inv = λ fs qs v. s.inv fs qs (arrives (rep.bytes ∷ []) [] v);
      can_send = λ can.
          s.can_send (record {
            waits = can.waits;
            tracks = can.tracks;
            reads = can.reads;
            slots = can.slots;
          });
      same_delivered = s.same_delivered;
      same_next = s.same_next;
      same_taken = s.same_taken;
      more = (rep.bytes ∷ []) ++ s.more;
      arrives = s.arrives ∙ append_assoc h.arrived (rep.bytes ∷ []) s.more;
      moving = λ fs qs m.
          s.moving fs qs (record { room = m.room; first_waits = m.first_waits; full = m.full });
    }

pub config_starts-SameFlow :
    (conn : Conn) (h h' : Hw) → Works conn → config_starts conn h ≡ done h' → SameFlow h h'
unfolding config_starts sendstatusrequest write
config_starts-SameFlow conn h h' works e =
    returned_one (SameFlow h) {a = h1} (sym (rw (works h.written new_status_packet) refl) ∙ e)
      (record {
        inv = λ fs qs v. v;
        can_send = λ can. record {
          waits = can.waits;
          tracks = can.tracks;
          reads = can.reads;
          slots = can.slots;
        };
        same_delivered = refl;
        same_next = refl;
        same_taken = refl;
        more = [];
        arrives = sym (append-nil h.arrived);
        moving = λ fs qs m. record { room = m.room; first_waits = m.first_waits; full = m.full };
      })
  where
    h1 : Hw
    h1 = record h {
      written = h.written ++ (new_status_packet ∷ []);
      bytessent = h.bytessent + length new_status_packet;
      packssent = h.packssent + 1;
    }

pub lost_starts-SameFlow :
    (conn : Conn) (h h' : Hw) → Works conn → lost_starts conn h ≡ done h' → SameFlow h h'
unfolding lost_starts config_starts
lost_starts-SameFlow conn h h' works e =
    let s =
      config_starts-SameFlow conn (record h { timedout = stopped; handlinglost = true }) h' works
        e in
    record {
      inv = s.inv;
      can_send = λ can.
          s.can_send (record {
            waits = can.waits;
            tracks = can.tracks;
            reads = can.reads;
            slots = can.slots;
          });
      same_delivered = s.same_delivered;
      same_next = s.same_next;
      same_taken = s.same_taken;
      more = s.more;
      arrives = s.arrives;
      moving = λ fs qs m.
          s.moving fs qs (record {
            room = m.room;
            first_waits = m.first_waits;
            full = λ l. absurd (not_over l);
          });
    }
  where
    not_over : true ≡ false → ⊥
    not_over e = cc

pub report-SameFlow : (h : Hw) → SameFlow h (report h)
unfolding report
report-SameFlow h = record {
  inv = λ fs qs v. v;
  can_send = λ can. record {
    waits = can.waits;
    tracks = can.tracks;
    reads = can.reads;
    slots = can.slots;
  };
  same_delivered = refl;
  same_next = refl;
  same_taken = refl;
  more = [];
  arrives = sym (append-nil h.arrived);
  moving = λ fs qs m. record { room = m.room; first_waits = m.first_waits; full = m.full };
}
