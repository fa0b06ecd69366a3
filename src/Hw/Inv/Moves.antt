-- ===== src/Hw/Inv/Moves.antt =====
-- A packet is queued and goes out: the flow of packets is kept.
use ipbus.Common.{
  ℕ, ◌+◌, ◌<◌, ◌≡◌, sym, subst, ◌∙◌, false, List, [], ◌∷◌, ◌++◌, append_assoc, arith, ◌==◌,
}
use ipbus.IdLog.{IdLog}
use ipbus.IdLog.Ring.{Holds}
use ipbus.Packet.{Packet}
use ipbus.PacketLog.{PacketLog, add, remove}
use ipbus.PacketLog.Laws.{has-add, has-remove, size-add, IsMap-add, IsMap-remove}
use ipbus.Hw.Ids.{mem, mem-append, mem-eq, InLine, InLine-distinct, InLine-append, follow}
use ipbus.Hw.Answer.{Asked, IsReply}
use ipbus.Hw.Inv.{IsFor, Answers, Keyed-change, next_is_fresh, Keyed-add, Keyed-remove, Flow, few}

module _ {asks : ℕ → Asked} {arrived : List (List ℕ)} {tosend flying replied : PacketLog Packet}
    {queuedids flyingids : IdLog} {next_id inflight maxflight : ℕ} {fs qs : List ℕ} where
  -- The oldest queued packet goes out.
  pub launched :
      (x : ℕ) (p : Packet) (ms : List ℕ) (queuedids' flyingids' : IdLog)
      → Flow asks arrived tosend flying replied queuedids flyingids next_id inflight maxflight fs
          (x ∷ qs)
          ms
      → inflight < maxflight
      → IsFor asks x p
      → Holds queuedids' qs
      → queuedids'.max ≡ queuedids.max
      → Holds flyingids' (fs ++ (x ∷ []))
      → flyingids'.max ≡ flyingids.max
      → Flow asks arrived
          (remove tosend x)
          (add flying x p)
          replied
          queuedids'
          flyingids'
          next_id
          (inflight + 1)
          maxflight
          (fs ++ (x ∷ []))
          qs
          ms
  launched x p ms queuedids' flyingids' v room keyed q' qm f' fm = record {
    flying_ids = f';
    flying_max = fm ∙ v.flying_max;
    queued_ids = q';
    queued_max = qm ∙ v.queued_max;
    in_line = subst (λ ids. InLine ids next_id) (sym (append_assoc fs (x ∷ []) qs)) v.in_line;
    tosend_map = IsMap-remove tosend x v.tosend_map;
    flying_map = IsMap-add flying x p v.flying_map;
    tosend_is =
        λ k. ground (arith, has-remove tosend x k, v.tosend_is k, mem-eq qs x k, distinct.1);
    one_of = λ k. ground (arith, has-add flying x k p, v.one_of k, mem-append fs (x ∷ []) k);
    not_both = λ k.
        ground (arith, has-add flying x k p, v.not_both k, v.one_of k, mem-eq fs x k, distinct.0);
    not_missing = λ k.
        ground
          (arith, has-add flying x k p, v.not_missing k, v.one_of k, mem-eq fs x k, distinct.0);
    tosend_keyed = Keyed-remove (IsFor asks) tosend x v.tosend_keyed;
    flying_keyed = Keyed-add (IsFor asks) flying x p v.flying_keyed keyed;
    replied_keyed = v.replied_keyed;
    counted =
        omega (arith, size-add flying x p (ground (arith, v.one_of x, distinct.0)), v.counted);
    window = omega arith;
  }
    where
      distinct : (mem fs x ≡ false) × (mem qs x ≡ false)
      distinct = InLine-distinct fs qs x next_id v.in_line (omega (arith, few v))

  -- A packet of a user is queued under the next id.
  pub queued :
      (asks' : ℕ → Asked) (p : Packet) (ms : List ℕ) (queuedids' : IdLog)
      → Flow asks arrived tosend flying replied queuedids flyingids next_id inflight maxflight fs qs
          ms
      → ((k : ℕ) → (next_id == k) ≡ false → asks' k ≡ asks k)
      → IsFor asks' next_id p
      → Holds queuedids' (qs ++ (next_id ∷ []))
      → queuedids'.max ≡ queuedids.max
      → Flow asks' arrived
          (add tosend next_id p)
          flying
          replied
          queuedids'
          flyingids
          (follow next_id)
          inflight
          maxflight
          fs
          (qs ++ (next_id ∷ []))
          ms
  queued asks' p ms queuedids' v agree keyed q' qm = record {
    flying_ids = v.flying_ids;
    flying_max = v.flying_max;
    queued_ids = q';
    queued_max = qm ∙ v.queued_max;
    in_line =
        subst (λ ids. InLine ids (follow next_id)) (append_assoc fs qs (next_id ∷ []))
          (InLine-append (fs ++ qs) next_id v.in_line);
    tosend_map = IsMap-add tosend next_id p v.tosend_map;
    flying_map = v.flying_map;
    tosend_is = λ k.
        ground (arith, has-add tosend next_id k p, v.tosend_is k, mem-append qs (next_id ∷ []) k);
    one_of = v.one_of;
    not_both = v.not_both;
    not_missing = v.not_missing;
    tosend_keyed =
        Keyed-add (IsFor asks') tosend next_id p
          (Keyed-change (IsFor asks) (IsFor asks') tosend next_id still_for
            (v.tosend_is next_id ∙ fresh.1) v.tosend_keyed)
          keyed;
    flying_keyed =
        Keyed-change (IsFor asks) (IsFor asks') flying next_id still_for
          (ground (arith, v.one_of next_id, fresh.0)) v.flying_keyed;
    replied_keyed =
        Keyed-change (Answers asks arrived) (Answers asks' arrived) replied next_id still_answers
          (ground (arith, v.one_of next_id, fresh.0)) v.replied_keyed;
    counted = v.counted;
    window = v.window;
  }
    where
      fresh : (mem fs next_id ≡ false) × (mem qs next_id ≡ false)
      fresh = next_is_fresh v

      still_for : (k : ℕ) (p : Packet) → (next_id == k) ≡ false → IsFor asks k p → IsFor asks' k p
      still_for k p other (e, f) = (e, f ∙ sym (agree k other))

      still_answers :
          (k : ℕ) (p : Packet)
          → (next_id == k) ≡ false
          → Answers asks arrived k p
          → Answers asks' arrived k p
      still_answers k p other (e, f) = (e, subst (λ a. IsReply arrived a p) (sym (agree k other)) f)

  -- The next id may be any where nothing is on its way.
  pub reset_next :
      (next : ℕ)
      → InLine [] next
      → Flow asks arrived tosend flying replied queuedids flyingids next_id inflight maxflight fs qs
          []
      → fs ++ qs ≡ []
      → Flow asks arrived tosend flying replied queuedids flyingids next inflight maxflight fs qs []
  reset_next next l v e = record {
    flying_ids = v.flying_ids;
    flying_max = v.flying_max;
    queued_ids = v.queued_ids;
    queued_max = v.queued_max;
    in_line = subst (λ ids. InLine ids next) (sym e) l;
    tosend_map = v.tosend_map;
    flying_map = v.flying_map;
    tosend_is = v.tosend_is;
    one_of = v.one_of;
    not_both = v.not_both;
    not_missing = v.not_missing;
    tosend_keyed = v.tosend_keyed;
    flying_keyed = v.flying_keyed;
    replied_keyed = v.replied_keyed;
    counted = v.counted;
    window = v.window;
  }
