-- ===== src/Hw/Inv/Back.antt =====
-- A packet comes back and is handed on, or is entered again: the flow of packets is kept.
use ipbus.Common.{
  ℕ, ◌-◌, ◌≡◌, refl, sym, ap, ◌∙◌, true, false, ◌&&◌, ◌||◌, List, [], ◌∷◌, ◌++◌, arith, ◌==◌,
  ==_iff,
}
use ipbus.IdLog.{IdLog}
use ipbus.IdLog.Ring.{Holds}
use ipbus.Packet.{Packet}
use ipbus.PacketLog.{PacketLog, add, remove, has}
use ipbus.PacketLog.Laws.{has-add, has-remove, size-add_again, size-remove, IsMap-add, IsMap-remove}
use ipbus.Hw.Ids.{mem, mem-append, mem-eq, InLine-distinct}
use ipbus.Hw.Answer.{Asked, IsReply-more}
use ipbus.Hw.Inv.{IsFor, Answers, Keyed-add, Keyed-remove, Keyed-map, Flow, few}

module _ {asks : ℕ → Asked} {arrived : List (List ℕ)} {tosend flying replied : PacketLog Packet}
    {queuedids flyingids : IdLog} {next_id inflight maxflight : ℕ} {fs qs : List ℕ} where
  -- The answer to a packet in flight arrives: the step has the packet.
  pub landed :
      (x : ℕ)
      → Flow asks arrived tosend flying replied queuedids flyingids next_id inflight maxflight fs qs
          []
      → has flying x ≡ true
      → Flow asks arrived tosend
          (remove flying x)
          replied
          queuedids
          flyingids
          next_id
          (inflight - 1)
          maxflight
          fs
          qs
          (x ∷ [])
  landed x v here = record {
    flying_ids = v.flying_ids;
    flying_max = v.flying_max;
    queued_ids = v.queued_ids;
    queued_max = v.queued_max;
    in_line = v.in_line;
    tosend_map = v.tosend_map;
    flying_map = IsMap-remove flying x v.flying_map;
    tosend_is = v.tosend_is;
    one_of = λ k. ground (arith, has-remove flying x k, v.one_of k, same k);
    not_both = λ k. ground (arith, has-remove flying x k, v.not_both k);
    not_missing = λ k. ground (arith, has-remove flying x k, v.not_both k, same k);
    tosend_keyed = v.tosend_keyed;
    flying_keyed = Keyed-remove (IsFor asks) flying x v.flying_keyed;
    replied_keyed = v.replied_keyed;
    counted = omega (arith, size-remove flying x v.flying_map here, v.counted);
    window = omega (arith, v.window);
  }
    where
      same : (k : ℕ) → (x == k) ≡ true → has flying k ≡ true
      same k e = ap (has flying) (sym ((==_iff x k).0 e)) ∙ here

  -- The step puts the packet with its replies into `replied`.
  pub answered :
      (x : ℕ) (p : Packet)
      → Flow asks arrived tosend flying replied queuedids flyingids next_id inflight maxflight fs qs
          (x ∷ [])
      → Answers asks arrived x p
      → Flow asks arrived tosend flying
          (add replied x p)
          queuedids
          flyingids
          next_id
          inflight
          maxflight
          fs
          qs
          []
  answered x p v keyed = record {
    flying_ids = v.flying_ids;
    flying_max = v.flying_max;
    queued_ids = v.queued_ids;
    queued_max = v.queued_max;
    in_line = v.in_line;
    tosend_map = v.tosend_map;
    flying_map = v.flying_map;
    tosend_is = v.tosend_is;
    one_of = λ k. ground (arith, has-add replied x k p, v.one_of k);
    not_both = λ k. ground (arith, has-add replied x k p, v.not_both k, v.not_missing k);
    not_missing = λ k. refl;
    tosend_keyed = v.tosend_keyed;
    flying_keyed = v.flying_keyed;
    replied_keyed = Keyed-add (Answers asks arrived) replied x p v.replied_keyed keyed;
    counted = v.counted;
    window = v.window;
  }

  -- The responses of the oldest packet are handed on.
  pub handed :
      (x : ℕ) (flyingids' : IdLog)
      → Flow asks arrived tosend flying replied queuedids flyingids next_id inflight maxflight
          (x ∷ fs)
          qs
          []
      → has replied x ≡ true
      → Holds flyingids' fs
      → flyingids'.max ≡ flyingids.max
      → Flow asks arrived tosend flying
          (remove replied x)
          queuedids
          flyingids'
          next_id
          inflight
          maxflight
          fs
          qs
          []
  handed x flyingids' v here f' fm = record {
    flying_ids = f';
    flying_max = fm ∙ v.flying_max;
    queued_ids = v.queued_ids;
    queued_max = v.queued_max;
    in_line = v.in_line.2;
    tosend_map = v.tosend_map;
    flying_map = v.flying_map;
    tosend_is = v.tosend_is;
    one_of = λ k.
        ground (
          arith,
          has-remove replied x k,
          v.one_of k,
          v.not_both k,
          same k,
          mem-eq fs x k,
          distinct,
        );
    not_both = λ k. ground (arith, has-remove replied x k, v.not_both k);
    not_missing = λ k. refl;
    tosend_keyed = v.tosend_keyed;
    flying_keyed = v.flying_keyed;
    replied_keyed = Keyed-remove (Answers asks arrived) replied x v.replied_keyed;
    counted = v.counted;
    window = v.window;
  }
    where
      same : (k : ℕ) → (x == k) ≡ true → has replied k ≡ true
      same k e = ap (has replied) (sym ((==_iff x k).0 e)) ∙ here

      distinct : mem fs x ≡ false
      distinct = ground (
        arith,
        (InLine-distinct [] (fs ++ qs) x next_id v.in_line (omega (arith, few v))).1,
        mem-append fs qs x,
      )

  -- A packet in flight is entered again.
  pub renewed :
      (x : ℕ) (p : Packet) (ms : List ℕ)
      → Flow asks arrived tosend flying replied queuedids flyingids next_id inflight maxflight fs qs
          ms
      → has flying x ≡ true
      → IsFor asks x p
      → Flow asks arrived tosend
          (add flying x p)
          replied
          queuedids
          flyingids
          next_id
          inflight
          maxflight
          fs
          qs
          ms
  renewed x p ms v here keyed = record {
    flying_ids = v.flying_ids;
    flying_max = v.flying_max;
    queued_ids = v.queued_ids;
    queued_max = v.queued_max;
    in_line = v.in_line;
    tosend_map = v.tosend_map;
    flying_map = IsMap-add flying x p v.flying_map;
    tosend_is = v.tosend_is;
    one_of = λ k. ap (λ b. b || has replied k || mem ms k) (same k) ∙ v.one_of k;
    not_both = λ k. ap (λ b. b && has replied k) (same k) ∙ v.not_both k;
    not_missing = λ k. ap (λ b. mem ms k && (b || has replied k)) (same k) ∙ v.not_missing k;
    tosend_keyed = v.tosend_keyed;
    flying_keyed = Keyed-add (IsFor asks) flying x p v.flying_keyed keyed;
    replied_keyed = v.replied_keyed;
    counted = size-add_again flying x p v.flying_map here ∙ v.counted;
    window = v.window;
  }
    where
      is_there : (k : ℕ) → (x == k) ≡ true → has flying k ≡ true
      is_there k e = ap (has flying) (sym ((==_iff x k).0 e)) ∙ here

      same : (k : ℕ) → has (add flying x p) k ≡ has flying k
      same k = ground (arith, has-add flying x k p, is_there k)

  -- Another datagram arrives.
  pub arrives :
      (more : List (List ℕ)) (ms : List ℕ)
      → Flow asks arrived tosend flying replied queuedids flyingids next_id inflight maxflight fs qs
          ms
      → Flow asks
          (arrived ++ more)
          tosend
          flying
          replied
          queuedids
          flyingids
          next_id
          inflight
          maxflight
          fs
          qs
          ms
  arrives more ms v = record {
    flying_ids = v.flying_ids;
    flying_max = v.flying_max;
    queued_ids = v.queued_ids;
    queued_max = v.queued_max;
    in_line = v.in_line;
    tosend_map = v.tosend_map;
    flying_map = v.flying_map;
    tosend_is = v.tosend_is;
    one_of = v.one_of;
    not_both = v.not_both;
    not_missing = v.not_missing;
    tosend_keyed = v.tosend_keyed;
    flying_keyed = v.flying_keyed;
    replied_keyed =
        Keyed-map (Answers asks arrived) (Answers asks (arrived ++ more)) replied
          (λ k p a. (a.0, IsReply-more arrived more (asks k) p a.1)) v.replied_keyed;
    counted = v.counted;
    window = v.window;
  }
