-- ===== src/Hw/Trace/Keeps.antt =====
-- What holds of every run, and that each step keeps it.
use ipbus.Common.{
  ℕ, ◌<◌, ◌≡◌, refl, sym, ap, ap₂, subst, ◌∙◌, List, [], ◌∷◌, ◌++◌, map, append_assoc, append-nil,
  arith,
}
use ipbus.Packet.{Packet}
use ipbus.Status.{TargetStatus}
use ipbus.Hw.{Hw, new_hw}
use ipbus.Hw.Ids.{InLine, IsId}
use ipbus.Hw.Answer.{AreReplies, AreReplies-more}
use ipbus.Hw.Inv.{Inv, asked}
use ipbus.Hw.Inv.Moves.{reset_next}
use ipbus.Hw.Moving.{IsMoving}
use ipbus.Hw.SendNext.Round.{CanSend}
use ipbus.Hw.ReturnReply.Order.{all_deliveries}
use ipbus.Hw.Run.{config_ends}
use ipbus.Hw.Lost.Recovery.{Recovered}
use ipbus.Hw.Trace.Start.{new_hw-Inv, new_hw-CanSend, new_hw-Moving, SameFlow}
use ipbus.Hw.Trace.Requests.{Ask}

-- Of the packets `given` by the users, the first, `past`, were answered: `packs` are these, with their
-- ids and with the replies that `parse` makes of datagrams that have arrived with these ids. The others are `rest`; they wait under the ids `fs`, which were sent, and `qs`, which were
-- not, and nothing of them waits without need.
pub record InOrder (h : Hw) (given : List Packet) : Type 0 where
  pub past : List Packet
  pub rest : List Packet
  pub packs : List Packet
  pub fs : List ℕ
  pub qs : List ℕ
  pub split : given ≡ past ++ rest
  pub answered : AreReplies h.arrived past packs
  pub delivered : h.delivered ≡ all_deliveries packs
  pub waiting : Ask (asked h.taken) (fs ++ qs) rest
  pub in_line : InLine (map (λ p. p.id) packs ++ (fs ++ qs)) h.next_id
  pub inv : Inv h fs qs []
  pub can_send : CanSend h
  pub moving : IsMoving h fs qs

-- Some of the ids that wait go out.
pub regroup :
    (fs moved rest : List ℕ) {qs : List ℕ} → qs ≡ moved ++ rest → fs ++ qs ≡ (fs ++ moved) ++ rest
regroup fs moved rest e = ap (λ q. fs ++ q) e ∙ sym (append_assoc fs moved rest)

pub new_hw-InOrder : (waittime : ℕ) → 0 < waittime → InOrder (new_hw waittime) []
unfolding new_hw
new_hw-InOrder waittime w = record {
  past = [];
  rest = [];
  packs = [];
  fs = [];
  qs = [];
  split = refl;
  answered = tt;
  delivered = refl;
  waiting = tt;
  in_line = (omega arith, omega arith);
  inv = new_hw-Inv waittime;
  can_send = new_hw-CanSend waittime w;
  moving = new_hw-Moving waittime;
}

-- A step that hands nothing on and takes nothing: some ids may go out.
sends_only :
    (h h' : Hw) (given : List Packet) (o : InOrder h given) (fs' qs' : List ℕ)
    → o.fs ++ o.qs ≡ fs' ++ qs'
    → h'.delivered ≡ h.delivered
    → h'.next_id ≡ h.next_id
    → h'.taken ≡ h.taken
    → (more : List (List ℕ)) → h'.arrived ≡ h.arrived ++ more
    → Inv h' fs' qs' []
    → CanSend h'
    → IsMoving h' fs' qs'
    → InOrder h' (given ++ [])
sends_only h h' given o fs' qs' same_ids same_delivered same_next same_taken more arrives v can
      moving =
    record {
      past = o.past;
      rest = o.rest;
      packs = o.packs;
      fs = fs';
      qs = qs';
      split = append-nil given ∙ o.split;
      answered =
          subst (λ ds. AreReplies ds o.past o.packs) (sym arrives)
            (AreReplies-more h.arrived more o.past o.packs o.answered);
      delivered = same_delivered ∙ o.delivered;
      waiting =
          subst (λ ids. Ask (asked h'.taken) ids o.rest) same_ids
            (subst (λ ps. Ask (asked ps) (o.fs ++ o.qs) o.rest) (sym same_taken) o.waiting);
      in_line =
          subst (λ ids. InLine (map (λ p. p.id) o.packs ++ ids) h'.next_id) same_ids
            (subst (InLine (map (λ p. p.id) o.packs ++ (o.fs ++ o.qs))) (sym same_next) o.in_line);
      inv = v;
      can_send = can;
      moving = moving;
    }

pub same_flow :
    (h h' : Hw) (given : List Packet) → InOrder h given → SameFlow h h' → InOrder h' (given ++ [])
same_flow h h' given o s =
    sends_only h h' given o o.fs o.qs refl s.same_delivered s.same_next s.same_taken s.more
      s.arrives (s.inv o.fs o.qs o.inv) (s.can_send o.can_send) (s.moving o.fs o.qs o.moving)

pub recovers :
    (h h' : Hw) (given : List Packet) (datagrams : List (List ℕ)) (o : InOrder h given)
    → Recovered h o.fs o.qs datagrams h'
    → InOrder h' (given ++ [])
recovers h h' given datagrams o r =
    sends_only h h' given o (o.fs ++ r.moved) r.rest (regroup o.fs r.moved r.rest r.split)
      r.same_delivered r.same_next r.same_taken [] (r.same_arrived ∙ sym (append-nil h.arrived))
      r.inv r.can_send (r.moving o.moving)

pub took_status :
    (h : Hw) (sts : List TargetStatus) (given : List Packet)
    → InOrder h given
    → InOrder (record h { statuses = sts }) given
took_status h sts given o = record {
  past = o.past;
  rest = o.rest;
  packs = o.packs;
  fs = o.fs;
  qs = o.qs;
  split = o.split;
  answered = o.answered;
  delivered = o.delivered;
  waiting = o.waiting;
  in_line = o.in_line;
  inv = o.inv;
  can_send = record {
    waits = o.can_send.waits;
    tracks = o.can_send.tracks;
    reads = o.can_send.reads;
    slots = o.can_send.slots;
  };
  moving = record {
    room = o.moving.room;
    first_waits = o.moving.first_waits;
    full = o.moving.full;
  };
}

-- Nothing has been taken from the users yet.
pub configured_first :
    (h : Hw) (st : TargetStatus) (sts : List TargetStatus)
    → IsId st.nextid
    → InOrder h []
    → InOrder (config_ends st (record h { statuses = sts })) []
unfolding config_ends
configured_first h st sts v o = record {
  past = o.past;
  rest = o.rest;
  packs = o.packs;
  fs = o.fs;
  qs = o.qs;
  split = o.split;
  answered = o.answered;
  delivered = o.delivered;
  waiting = o.waiting;
  in_line =
      subst (λ l. InLine l st.nextid)
        (sym (
          ap₂ ◌++◌
            (no_packs o.packs (subst (λ ps. AreReplies h.arrived ps o.packs) nothing.0 o.answered))
            nothing_waits))
        v;
  inv = reset_next st.nextid v o.inv nothing_waits;
  can_send = record {
    waits = o.can_send.waits;
    tracks = o.can_send.tracks;
    reads = o.can_send.reads;
    slots = o.can_send.slots;
  };
  moving = record {
    room = o.moving.room;
    first_waits = o.moving.first_waits;
    full = o.moving.full;
  };
}
  where
    empty : (xs ys : List Packet) → [] ≡ xs ++ ys → (xs ≡ []) × (ys ≡ [])
    empty [] ys e = (refl, sym e)
    empty (x ∷ xs) ys e = absurd (apart e)
      where
        apart : [] ≡ x ∷ (xs ++ ys) → ⊥
        apart e = cc

    nothing : (o.past ≡ []) × (o.rest ≡ [])
    nothing = empty o.past o.rest o.split

    no_packs : (ps : List Packet) → AreReplies h.arrived [] ps → map (λ p. p.id) ps ≡ []
    no_packs [] e = refl
    no_packs (p ∷ ps) e = absurd e

    no_ids : (ids : List ℕ) → Ask (asked h.taken) ids [] → ids ≡ []
    no_ids [] a = refl
    no_ids (x ∷ ids) a = absurd a

    nothing_waits : o.fs ++ o.qs ≡ []
    nothing_waits =
        no_ids (o.fs ++ o.qs) (subst (Ask (asked h.taken) (o.fs ++ o.qs)) nothing.1 o.waiting)
