-- ===== src/Hw/ReturnReply/Order.antt =====
-- What `returnreply` hands on, and in which order.
use ipbus.Common.{
  ℕ, zero, suc, ◌≢◌, ◌+◌, ◌≤◌, ◌<◌, ◌≡◌, refl, sym, ap, subst, ◌∙◌, Bool, true, false, List, [],
  ◌∷◌, ◌++◌, length, append_assoc, append-nil, some, Option-cases, inl, inr, arith,
}
use ipbus.Outcome.{Outcome, done, ◌>>=◌, OrPanics, OrPanics-bind, OrPanics-map}
use ipbus.IdLog.{modulo, store, track}
use ipbus.IdLog.Ends.{modulo-OrPanics, store-OrPanics, track-OrPanics}
use ipbus.IdLog.Effects.{remove-Becomes, oldest_some, oldest_none}
use ipbus.Packet.{Packet}
use ipbus.Packet.Send.{ChanEvent, Readers, send}
use ipbus.Packet.Send.Delivery.{deliveries, AllReceive, send_lem}
use ipbus.PacketLog
use ipbus.PacketLog.{PacketLog, has, get, is_some}
use ipbus.PacketLog.Laws.{has-some, has-none}
use ipbus.Hw.{Hw}
use ipbus.Hw.Ids.{mem, mem-append, InLine, InLine-distinct}
use ipbus.Hw.Inv.{Inv, few}
use ipbus.Hw.Inv.Back.{handed}
use ipbus.Hw.SendNext.Window.{Found, Found-remove}
use ipbus.Hw.ReturnReply.{hand_on, return_first, while_sent, return_loop, returnreply}

-- What goes out on the channels of the users for some packets, one after the other.
abbrev pub all_deliveries : List Packet → List ChanEvent
all_deliveries [] = []
all_deliveries (p ∷ ps) = deliveries p.transactions p.replies ++ all_deliveries ps

abbrev pub after_return : Hw → Hw → Hw
after_return h h' = record h {
  replied = h'.replied;
  flyingids = h'.flyingids;
  returned = h'.returned;
  delivered = h'.delivered;
  returnedindex = h'.returnedindex;
  returnedids = h'.returnedids;
}

-- The first of some ids, if there is one, has no reply.
abbrev pub FirstWaits : PacketLog Packet → List ℕ → Type 0
FirstWaits l [] = Unit
FirstWaits l (x ∷ xs) = has l x ≡ false

-- The state `h'` after `returnreply`: the ids `over` are done with, and `rest` still wait.
pub record Returned (h : Hw) (fs qs : List ℕ) (h' : Hw) : Type 0 where
  pub over : List ℕ
  pub rest : List ℕ
  pub packs : List Packet
  pub split : fs ≡ over ++ rest
  pub inv : Inv h' rest qs []
  pub kept : h' ≡ after_return h h'
  pub found : Found h.replied over packs
  pub delivered : h'.delivered ≡ h.delivered ++ all_deliveries packs
  pub waits : FirstWaits h'.replied rest

returns_nothing :
    (h : Hw) (fs qs : List ℕ) → Inv h fs qs [] → FirstWaits h.replied fs → Returned h fs qs h
returns_nothing h fs qs v w = record {
  over = [];
  rest = fs;
  packs = [];
  split = refl;
  inv = v;
  kept = refl;
  found = tt;
  delivered = sym (append-nil h.delivered);
  waits = w;
}

-- The state after the replies of one packet have been handed on.
record HandedOn (h : Hw) (x : ℕ) (p : Packet) (fs qs : List ℕ) (h' : Hw) : Type 0 where
  inv : Inv h' fs qs []
  kept : h' ≡ after_return h h'
  one_less : h'.replied ≡ PacketLog.remove h.replied x
  delivered : h'.delivered ≡ h.delivered ++ deliveries p.transactions p.replies

send-OrPanics :
    (readers : Readers) (past : List ChanEvent) (p : Packet)
    → AllReceive readers
    → OrPanics (λ events. events ≡ deliveries p.transactions p.replies) (send readers past p)
send-OrPanics readers past p reads = elim (send_lem readers past p reads) [
  | inl (_, _, e) ↦ rw e refl
  | inr (_, e) ↦ rw e tt
]

hand_on-OrPanics :
    (h : Hw) (x : ℕ) (p : Packet) (fs qs : List ℕ)
    → Inv h (x ∷ fs) qs []
    → AllReceive h.readers
    → get h.replied x ≡ some p
    → OrPanics (HandedOn h x p fs qs) (hand_on x p h)
unfolding hand_on
hand_on-OrPanics h x p fs qs v reads found =
    let removed = remove-Becomes h.flyingids x fs v.flying_ids in
    rw removed.returns (
      OrPanics-bind (λ _. Unit) (HandedOn h x p fs qs) (track h.returned x) _
        (track-OrPanics h.returned x)
        (λ t _.
          OrPanics-bind (λ events. events ≡ deliveries p.transactions p.replies)
            (HandedOn h x p fs qs) (send h.readers h.delivered p) _
            (send-OrPanics h.readers h.delivered p reads)
            (λ events e.
              OrPanics-bind (λ _. Unit) (HandedOn h x p fs qs)
                (modulo (h.returnedindex + 1) h.returnedsize) _
                (modulo-OrPanics (h.returnedindex + 1) h.returnedsize)
                (λ i _.
                  OrPanics-bind (λ _. Unit) (HandedOn h x p fs qs) (store h.returnedids i x) _
                    (store-OrPanics h.returnedids i x)
                    (λ ids _. record {
                      inv =
                          handed x removed.i' v (has-some h.replied x found) removed.holds
                            removed.same_max;
                      kept = refl;
                      one_less = refl;
                      delivered = ap (λ ev. h.delivered ++ ev) e;
                    })))))

-- A round that handed on the packet `p`, and the rounds behind it.
behind :
    (h : Hw) (x : ℕ) (p : Packet) (fs qs : List ℕ) {h1 h' : Hw}
    → get h.replied x ≡ some p
    → mem fs x ≡ false
    → HandedOn h x p fs qs h1
    → Returned h1 fs qs h'
    → Returned h (x ∷ fs) qs h'
behind h x p fs qs {h1} {h'} found fresh o r = record {
  over = x ∷ r.over;
  rest = r.rest;
  packs = p ∷ r.packs;
  split = ap (λ ids. x ∷ ids) r.split;
  inv = r.inv;
  kept = r.kept ∙ ap (λ g. after_return g h') o.kept;
  found = (
    found,
    Found-remove h.replied x r.over r.packs (front fresh)
        (subst (λ l. Found l r.over r.packs) o.one_less r.found),
  );
  delivered =
      r.delivered
      ∙ ap (λ d. d ++ all_deliveries r.packs) o.delivered
      ∙ append_assoc h.delivered (deliveries p.transactions p.replies) (all_deliveries r.packs);
  waits = r.waits;
}
  where
    front : mem fs x ≡ false → mem r.over x ≡ false
    front h = ground (arith, mem-append r.over r.rest x, ap (λ ids. mem ids x) r.split)

again :
    (P : Hw → Type 0) (h : Hw) (b : Bool) (go_on : Hw → Outcome Hw)
    → b ≡ true
    → OrPanics P (go_on h)
    → OrPanics P (while_sent go_on (h, b))
again P h true go_on e o = o
again P h false go_on e o = absurd (not_sent e)
  where
    not_sent : false ≢ true
    not_sent q = cc

front_fresh :
    (x : ℕ) (fs qs : List ℕ) (next : ℕ)
    → InLine (x ∷ (fs ++ qs)) next
    → length (x ∷ (fs ++ qs)) ≤ 288
    → mem fs x ≡ false
front_fresh x fs qs next l n =
    ground (arith, (InLine-distinct [] (fs ++ qs) x next l (omega arith)).1, mem-append fs qs x)

return_loop-Returned :
    (fuel : ℕ) (h : Hw) (fs qs : List ℕ)
    → Inv h fs qs []
    → AllReceive h.readers
    → length fs < fuel
    → OrPanics (Returned h fs qs) (return_loop fuel h)
unfolding return_loop return_first
return_loop-Returned zero h fs qs v reads l = absurd (omega arith)
return_loop-Returned (suc fuel) h [] qs v reads l =
    rw (oldest_none h.flyingids v.flying_ids) (returns_nothing h [] qs v tt)
return_loop-Returned (suc fuel) h (x ∷ fs) qs v reads l =
    rw (oldest_some h.flyingids x fs v.flying_ids) (elim (Option-cases (get h.replied x)) [
      | inl waits ↦ rw waits (returns_nothing h (x ∷ fs) qs v (has-none h.replied x waits))
      | inr (p, found) ↦ rw found (
          OrPanics-bind (λ r. HandedOn h x p fs qs r.0 × (r.1 ≡ true)) (Returned h (x ∷ fs) qs)
            (hand_on x p h >>= λ h'. done (h', true)) (while_sent (return_loop fuel))
            (OrPanics-bind (HandedOn h x p fs qs) (λ r. HandedOn h x p fs qs r.0 × (r.1 ≡ true))
              (hand_on x p h) _ (hand_on-OrPanics h x p fs qs v reads found) (λ h1 o. (o, refl)))
            (λ r o. again (Returned h (x ∷ fs) qs) r.0 r.1 (return_loop fuel) o.1 (
              OrPanics-map (Returned r.0 fs qs) (Returned h (x ∷ fs) qs) (return_loop fuel r.0)
                (λ h' t.
                  behind h x p fs qs found (front_fresh x fs qs h.next_id v.in_line (few v)) o.0 t)
                (return_loop-Returned fuel r.0 fs qs o.0.inv
                  (subst (λ g. AllReceive g.readers) (sym o.0.kept) reads) (omega arith)))))
    ])

-- Where the users receive whatever is sent to them, `returnreply` never runs or waits for ever. Where
-- it returns, the ids that it is done with are the oldest of those that were sent, and the responses of
-- their packets went out on the channels of the users in that order; the first id that is left, if
-- there is one, has no reply yet. The invariant holds again, and nothing else of the state changes.
pub returnreply-Returned :
    (h : Hw) (fs qs : List ℕ)
    → Inv h fs qs []
    → AllReceive h.readers
    → OrPanics (Returned h fs qs) (returnreply h)
unfolding returnreply
returnreply-Returned h fs qs v reads =
    return_loop-Returned (h.flyingids.n + 1) h fs qs v reads (omega (arith, v.flying_ids.counted))
