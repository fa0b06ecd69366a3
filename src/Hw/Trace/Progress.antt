-- ===== src/Hw/Trace/Progress.antt =====
-- A connection that has nothing in flight has nothing left to do.
use ipbus.Common.{
  ℕ, ◌<◌, ◌≡◌, refl, sym, ap, subst, ◌∙◌, Bool, true, false, ◌||◌, List, [], ◌∷◌, ◌++◌, length,
  append-nil, inl, inr, arith, ◌==◌, ==_self, none,
}
use ipbus.Packet.{Packet}
use ipbus.PacketLog.{PacketLog, has, get, lookup, is_some}
use ipbus.PacketLog.Laws.{size}
use ipbus.Hw.{Hw, Conn}
use ipbus.Hw.Ids.{mem}
use ipbus.Hw.Answer.{Asked, AreReplies}
use ipbus.Hw.Inv.{Inv, asked}
use ipbus.Hw.SendNext.Round.{Works}
use ipbus.Hw.ReturnReply.Order.{all_deliveries}
use ipbus.Hw.Moving.{IsMoving}
use ipbus.Hw.Trace.{Reach, usual}
use ipbus.Hw.Trace.Requests.{Ask}
use ipbus.Hw.Trace.Order.{reach-InOrder}

has-empty : (l : PacketLog Packet) (k : ℕ) → size l ≡ 0 → has l k ≡ false
unfolding has get lookup
has-empty l k e = ap (λ o. is_some o) (nothing l.packets e)
  where
    nothing : (ps : List (ℕ × Packet)) → length ps ≡ 0 → lookup ps k ≡ none
    nothing [] e = refl
    nothing (p ∷ ps) e = absurd (omega arith)

-- No packet in flight: no id waits for a reply.
all_answered :
    (h : Hw) (fs qs : List ℕ) → Inv h fs qs [] → IsMoving h fs qs → h.inflight ≡ 0 → fs ≡ []
all_answered h [] qs v m e = refl
all_answered h (x ∷ fs) qs v m e = absurd (
    nowhere (has h.flying x) (has h.replied x) (x == x) (mem fs x)
      (has-empty h.flying x (v.counted ∙ e)) m.first_waits (==_self x) (v.one_of x))
  where
    nowhere : (a b c d : Bool) → a ≡ false → b ≡ false → c ≡ true → (a || b || false) ≡ (c || d) → ⊥
    nowhere a b c d no_flight no_reply here e = ground arith

-- And no id waits to be sent.
all_sent :
    (h : Hw) (fs qs : List ℕ) → IsMoving h fs qs → h.inflight ≡ 0 → h.handlinglost ≡ false → qs ≡ []
all_sent h fs qs m e l = elim (m.full l) [
  | inl none_left ↦ none_left
  | inr full ↦ absurd (no_room m.room full)
]
  where
    no_room : 0 < h.maxflight → h.inflight ≡ h.maxflight → ⊥
    no_room r full = omega arith

no_requests : (asks : ℕ → Asked) (ps : List Packet) → Ask asks [] ps → ps ≡ []
no_requests asks [] a = refl
no_requests asks (p ∷ ps) a = absurd a

-- On a connection on which no write fails, with a wait that is not 0, take a state that a run of the usual kind reaches
-- in which no packet is in flight and no lost packet is being handled. Then nothing is left behind:
-- every packet that the users gave has been answered. What went out on the channels of the users is
-- the responses of all these packets, each on the channels of its own transactions, packet by packet
-- in the order in which they were given; the responses of a packet are those that `parse` makes for it
-- of a datagram with its id that has arrived, one for each transaction at least.
pub Reach-all_deliveries :
    (conn : Conn) (waittime : ℕ) (h : Hw) (given : List Packet)
    → Works conn
    → 0 < waittime
    → Reach conn waittime usual h given
    → h.inflight ≡ 0
    → h.handlinglost ≡ false
    → (packs : List Packet) × (h.delivered ≡ all_deliveries packs)
      × AreReplies h.arrived given packs
Reach-all_deliveries conn waittime h given works w r e l =
    let o = reach-InOrder conn waittime h given works w r in
    let no_ids : o.fs ++ o.qs ≡ [] =
      ap (λ f. f ++ o.qs) (all_answered h o.fs o.qs o.inv o.moving e)
      ∙ all_sent h o.fs o.qs o.moving e l in
    let no_rest : o.rest ≡ [] =
      no_requests (asked h.taken) o.rest
        (subst (λ ids. Ask (asked h.taken) ids o.rest) no_ids o.waiting) in
    (
      o.packs,
      o.delivered,
      subst (λ ps. AreReplies h.arrived ps o.packs)
          (sym (o.split ∙ ap (λ q. o.past ++ q) no_rest ∙ append-nil o.past)) o.answered,
    )
