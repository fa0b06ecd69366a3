-- ===== src/Hw/Trace/Through.antt =====
-- A packet of a user comes in, and answers go out: what holds of every run is kept.
use ipbus.Common.{
  false, ℕ, ◌≡◌, refl, sym, ap, subst, ◌∙◌, List, [], ◌∷◌, ◌++◌, map, map-append, append_assoc,
  append-nil, arith,
}
use ipbus.Outcome.{Outcome, done}
use ipbus.Packet.{Packet}
use ipbus.Packet.Headed.{writeheader}
use ipbus.Packet.Send.Delivery.{deliveries}
use ipbus.Hw.{Hw}
use ipbus.Hw.Ids.{mem, mem-append, InLine, InLine-append}
use ipbus.Hw.Answer.{ask_of, AreReplies, AreReplies-more, AreReplies-append}
use ipbus.Hw.Inv.{asked, asked-append_other, asked-append_self, next_is_fresh}
use ipbus.Hw.ReturnReply.Order.{all_deliveries}
use ipbus.Hw.Run.Incoming.{Accepted, writeheader-id}
use ipbus.Hw.Run.HandBack.{Answered}
use ipbus.Hw.Trace.Requests.{Ask, Ask-split, Ask-append, AreFor-Ask, AreFor-ids}
use ipbus.Hw.Trace.Keeps.{InOrder, regroup}

all_deliveries-append :
    (ps qs : List Packet) → all_deliveries (ps ++ qs) ≡ all_deliveries ps ++ all_deliveries qs
all_deliveries-append [] qs = refl
all_deliveries-append (p ∷ ps) qs =
    ap (λ ev. deliveries p.transactions p.replies ++ ev) (all_deliveries-append ps qs)
    ∙ sym
        (append_assoc (deliveries p.transactions p.replies) (all_deliveries ps) (all_deliveries qs))

writeheader-ask_of : (p : Packet) (id : ℕ) → ask_of (writeheader p id).0 ≡ ask_of p
unfolding writeheader
writeheader-ask_of p id = refl

pub accepts :
    (h : Hw) (given : List Packet) (pack : Packet) {out : Outcome Hw} (h' : Hw)
    (o : InOrder h given)
    → Accepted h pack o.fs o.qs out
    → out ≡ done h'
    → InOrder h' (given ++ (pack ∷ []))
accepts h given pack h' o a e =
    subst (λ g. InOrder g (given ++ (pack ∷ []))) (returned_is (sym a.returns ∙ e))
      record {
        past = o.past;
        rest = o.rest ++ (pack ∷ []);
        packs = o.packs;
        fs = o.fs ++ a.moved;
        qs = a.rest;
        split = ap (λ l. l ++ (pack ∷ [])) o.split ∙ append_assoc o.past o.rest (pack ∷ []);
        answered =
            subst (λ ds. AreReplies ds o.past o.packs) (sym (ap (λ g. g.arrived) a.kept))
              o.answered;
        delivered = ap (λ g. g.delivered) a.kept ∙ o.delivered;
        waiting =
            subst (λ ids. Ask (asked a.h'.taken) ids (o.rest ++ (pack ∷ []))) one_more
              (subst
                (λ ps. Ask (asked ps) ((o.fs ++ o.qs) ++ (h.next_id ∷ [])) (o.rest ++ (pack ∷ [])))
                (sym (ap (λ g. g.taken) a.kept)) now_waiting);
        in_line =
            subst (λ ids. InLine (map (λ p. p.id) o.packs ++ ids) a.h'.next_id) one_more
              (subst (λ l. InLine l a.h'.next_id)
                (append_assoc (map (λ p. p.id) o.packs) (o.fs ++ o.qs) (h.next_id ∷ []))
                (subst (InLine ((map (λ p. p.id) o.packs ++ (o.fs ++ o.qs)) ++ (h.next_id ∷ [])))
                  (sym (ap (λ g. g.next_id) a.kept))
                  (InLine-append (map (λ p. p.id) o.packs ++ (o.fs ++ o.qs)) h.next_id o.in_line)));
        inv = a.inv;
        can_send = a.can_send;
        moving = a.moving o.moving;
      }
  where
    p' : Packet
    p' = (writeheader pack h.next_id).0

    returned_is : {g : Hw} → done g ≡ done h' → g ≡ h'
    returned_is e = cc

    one_more : (o.fs ++ o.qs) ++ (h.next_id ∷ []) ≡ (o.fs ++ a.moved) ++ a.rest
    one_more = append_assoc o.fs o.qs (h.next_id ∷ []) ∙ regroup o.fs a.moved a.rest a.split

    fresh : mem (o.fs ++ o.qs) h.next_id ≡ false
    fresh = ground (arith, next_is_fresh o.inv, mem-append o.fs o.qs h.next_id)

    now_waiting :
        Ask
          (asked (h.taken ++ (p' ∷ [])))
          ((o.fs ++ o.qs) ++ (h.next_id ∷ []))
          (o.rest ++ (pack ∷ []))
    now_waiting =
        Ask-append (asked h.taken) (asked (h.taken ++ (p' ∷ []))) (o.fs ++ o.qs) h.next_id o.rest
          pack fresh
          (λ k. asked-append_other h.taken p' h.next_id k (writeheader-id pack h.next_id))
          (sym (writeheader-ask_of pack h.next_id)
            ∙ (asked-append_self h.taken p' h.next_id (writeheader-id pack h.next_id)).1)
          o.waiting

pub answers :
    (h h' : Hw) (id : ℕ) (bytes : List ℕ) (given : List Packet) (o : InOrder h given)
    → Answered h id bytes (h.arrived ++ (bytes ∷ [])) o.fs o.qs h'
    → InOrder h' (given ++ [])
answers h h' id bytes given o a =
    let (first, later, split, front, back) =
      Ask-split (asked h.taken) a.over (a.left ++ a.rest) o.rest
        (subst (λ ids. Ask (asked h.taken) ids o.rest) ids_split o.waiting) in
    record {
      past = o.past ++ first;
      rest = later;
      packs = o.packs ++ a.packs;
      fs = a.left;
      qs = a.rest;
      split =
          append-nil given
          ∙ o.split
          ∙ ap (λ l. o.past ++ l) split
          ∙ sym (append_assoc o.past first later);
      answered =
          subst (λ ds. AreReplies ds (o.past ++ first) (o.packs ++ a.packs)) (sym a.same_arrived)
            (AreReplies-append arrived o.past first o.packs a.packs
              (AreReplies-more h.arrived (bytes ∷ []) o.past o.packs o.answered)
              (AreFor-Ask (asked h.taken) arrived a.over a.packs first a.are_for front));
      delivered =
          a.delivered
          ∙ ap (λ d. d ++ all_deliveries a.packs) o.delivered
          ∙ sym (all_deliveries-append o.packs a.packs);
      waiting = subst (λ ps. Ask (asked ps) (a.left ++ a.rest) later) (sym a.same_taken) back;
      in_line =
          subst (λ l. InLine l h'.next_id) line_split
            (subst (InLine (map (λ p. p.id) o.packs ++ (o.fs ++ o.qs))) (sym a.same_next)
              o.in_line);
      inv = a.inv;
      can_send = a.can_send;
      moving = a.moving o.moving;
    }
  where
    arrived : List (List ℕ)
    arrived = h.arrived ++ (bytes ∷ [])

    ids_split : o.fs ++ o.qs ≡ a.over ++ (a.left ++ a.rest)
    ids_split =
        regroup o.fs a.moved a.rest a.queue_split
        ∙ ap (λ l. l ++ a.rest) a.flight_split
        ∙ append_assoc a.over a.left a.rest

    line_split :
        map (λ p. p.id) o.packs ++ (o.fs ++ o.qs)
        ≡ map (λ p. p.id) (o.packs ++ a.packs) ++ (a.left ++ a.rest)
    line_split =
        ap (λ l. map (λ p. p.id) o.packs ++ l)
          (ids_split
            ∙ ap (λ l. l ++ (a.left ++ a.rest))
                (sym (AreFor-ids (asked h.taken) arrived a.over a.packs a.are_for)))
        ∙ sym (append_assoc (map (λ p. p.id) o.packs) (map (λ p. p.id) a.packs) (a.left ++ a.rest))
        ∙ ap (λ l. l ++ (a.left ++ a.rest)) (sym (map-append (λ p. p.id) o.packs a.packs))
