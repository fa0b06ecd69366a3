-- ===== src/Hw/Endpoint/Channels.antt =====
-- What `Send` took is what `Run` took and what is still in the channel.
use ipbus.Common.{
  ℕ, ◌≤◌, ◌≡◌, refl, sym, ap, subst, ◌∙◌, Bool, Bool-cases, true, false, List, [], ◌∷◌, ◌++◌,
  length, length-append, append_assoc, append-nil, inl, inr, arith, ltb, none,
}
use ipbus.Outcome.{Outcome, done, panic, stuck}
use ipbus.Packet.{Packet}
use ipbus.Status.{Slice}
use ipbus.Hw.{Hw, Conn}
use ipbus.Hw.Endpoint.{Endpoint, send, queue_reply}
use ipbus.Hw.Trace.{Rules, Step, Reach, and_then}

-- Of the packets `packs` that `Send` took, `Run` took `given`, in a run of the connection; the others
-- are in the channel.
pub record Taken (conn : Conn) (waittime : ℕ) (rules : Rules) (e : Endpoint) (packs : List Packet)
    : Type 0 where
  pub given : List Packet
  pub split : packs ≡ given ++ e.incoming
  pub reach : Reach conn waittime rules e.hw given
  pub few_packets : length e.incoming ≤ 100
  pub few_replies : length e.replies ≤ 100
  pub accepts : e.is_stopped ≡ false

-- The value of a call that returned.
value_of {ℓ} : {A : Type ℓ} → A → Outcome A → A
value_of a (done b) = b
value_of a panic = a
value_of a stuck = a

pub done-same {ℓ} : {A : Type ℓ} {a b : A} → done a ≡ done b → a ≡ b
unfolding value_of
done-same {A} {a} e = ap (value_of a) e

pub waits_not {ℓ} : {A : Type ℓ} {a : A} → stuck ≡ done a → ⊥
waits_not e = cc

-- A step of the connection, with the packet that it took from the channel.
pub steps :
    (conn : Conn) (waittime : ℕ) (rules : Rules) (e : Endpoint) (packs : List Packet) (h' : Hw)
    → Taken conn waittime rules e packs
    → Step conn rules e.hw [] h'
    → Taken conn waittime rules (record e { hw = h' }) packs
steps conn waittime rules e packs h' t s = record {
  given = t.given;
  split = t.split;
  reach = subst (Reach conn waittime rules h') (append-nil t.given) (and_then t.reach s);
  few_packets = t.few_packets;
  few_replies = t.few_replies;
  accepts = t.accepts;
}

-- The rest of the state may change, and `replies` too, as long as there are not too many.
pub with_rest :
    (conn : Conn) (waittime : ℕ) (rules : Rules) (e : Endpoint) (packs : List Packet)
    (replies : List Slice) (bytesreceived packsreceived : ℕ) (running receiving is_open : Bool)
    → Taken conn waittime rules e packs
    → length replies ≤ 100
    → Taken conn waittime rules
        (record e {
          replies = replies;
          bytesreceived = bytesreceived;
          packsreceived = packsreceived;
          running = running;
          receiving = receiving;
          is_open = is_open;
        })
        packs
with_rest conn waittime rules e packs replies bytesreceived packsreceived running receiving is_open
      t few =
    record {
      given = t.given;
      split = t.split;
      reach = t.reach;
      few_packets = t.few_packets;
      few_replies = few;
      accepts = t.accepts;
    }

pub send-Taken :
    (conn : Conn) (waittime : ℕ) (rules : Rules) (e e' : Endpoint) (packs : List Packet)
    (p : Packet)
    → Taken conn waittime rules e packs
    → send p e ≡ done (e', none)
    → Taken conn waittime rules e' (packs ++ (p ∷ []))
unfolding send
send-Taken conn waittime rules e e' packs p t r = elim (Bool-cases (ltb (length e.incoming) 100)) [
  | inl room ↦
      subst (λ g. Taken conn waittime rules g (packs ++ (p ∷ [])))
        (ap (λ q. q.0) (done-same (sym (took room) ∙ r)))
        (record {
          given = t.given;
          split = ap (λ l. l ++ (p ∷ [])) t.split ∙ append_assoc t.given e.incoming (p ∷ []);
          reach = t.reach;
          few_packets = ground (arith, length-append e.incoming (p ∷ []));
          few_replies = t.few_replies;
          accepts = t.accepts;
        })
  | inr full ↦ absurd (waits_not (sym (waits full) ∙ r))
]
  where
    took :
        ltb (length e.incoming) 100 ≡ true
        → send p e ≡ done (record e { incoming = e.incoming ++ (p ∷ []) }, none)
    took room = rw (t.accepts, room) refl

    waits : ltb (length e.incoming) 100 ≡ false → send p e ≡ stuck
    waits full = rw (t.accepts, full) refl

pub queue-Taken :
    (conn : Conn) (waittime : ℕ) (rules : Rules) (e e' : Endpoint) (packs : List Packet)
    (rep : Slice)
    → Taken conn waittime rules e packs
    → queue_reply rep e ≡ done e'
    → Taken conn waittime rules e' packs
unfolding queue_reply
queue-Taken conn waittime rules e e' packs rep t r =
    elim (Bool-cases (ltb (length e.replies) 100)) [
      | inl room ↦
          subst (λ g. Taken conn waittime rules g packs) (done-same (sym (took room) ∙ r))
            (with_rest conn waittime rules e packs (e.replies ++ (rep ∷ [])) e.bytesreceived
              e.packsreceived e.running e.receiving e.is_open t
              (ground (arith, length-append e.replies (rep ∷ []))))
      | inr full ↦ absurd (waits_not (sym (waits full) ∙ r))
    ]
  where
    took :
        ltb (length e.replies) 100 ≡ true
        → queue_reply rep e ≡ done (record e { replies = e.replies ++ (rep ∷ []) })
    took room = rw room refl

    waits : ltb (length e.replies) 100 ≡ false → queue_reply rep e ≡ stuck
    waits full = rw full refl
