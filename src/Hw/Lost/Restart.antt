-- ===== src/Hw/Lost/Restart.antt =====
-- The loop of `handlelost` from the timed-out id on.
use ipbus.Common.{
  ℕ, suc, ◌+◌, ◌≡◌, ◌≢◌, refl, sym, ap, ◌∙◌, Bool, true, false, ◌||◌, List, [], ◌∷◌, ◌++◌, map,
  length, length-append, append-nil, Option-cases, Bool-cases, ◌⊎◌, inl, inr, arith, ltb, ◌==◌,
  ==_iff,
}
use ipbus.Outcome.{Outcome, done}
use ipbus.Packet.{Packet}
use ipbus.PacketLog.{has, get}
use ipbus.PacketLog.Laws.{has-some}
use ipbus.Hw.{Hw, Conn}
use ipbus.Hw.Ids.{mem}
use ipbus.Hw.Inv.{Inv}
use ipbus.Hw.SendNext.Round.{Works}
use ipbus.Hw.SendNext.Window.{Found}
use ipbus.Hw.Lost.{resend_loop}
use ipbus.Hw.Lost.Resend.{FirstGone, after_resend, resend_loop-Resent, resend_loop_gone}

-- The packets in flight from the timed-out id on, up to the first that is no longer in flight: the ids
-- from the timed-out one on are `ids`, whose packets are in flight, and `left`, whose first is not.
-- Without the timed-out id among those that were sent, there are none.
pub record Again (h : Hw) (fs : List ℕ) (datagrams : List (List ℕ)) : Type 0 where
  pub pre : List ℕ
  pub ids : List ℕ
  pub left : List ℕ
  pub packs : List Packet
  pub split : fs ≡ pre ++ (ids ++ left)
  pub starts :
      ((behind : List ℕ) × (ids ++ left ≡ h.timeoutid ∷ behind))
      ⊎ ((mem fs h.timeoutid ≡ false) × (ids ≡ []))
  pub stops : FirstGone h.flying left
  pub found : Found h.flying ids packs
  pub datagrams_are : datagrams ≡ map (λ p. p.request_bytes) packs

split_at : (xs : List ℕ) (x : ℕ) → mem xs x ≡ true → (pre post : List ℕ) × (xs ≡ pre ++ (x ∷ post))
split_at [] x h = absurd (false-ne-true h)
  where
    false-ne-true : false ≢ true
    false-ne-true q = cc
split_at (y ∷ xs) x h = elim (Bool-cases (y == x)) [
  | inl here ↦ ([], xs, ap (λ z. z ∷ xs) ((==_iff y x).0 here))
  | inr there ↦
      let (pre, post, e) = split_at xs x (sym (ap (λ b. b || mem xs x) there) ∙ h) in
      (y ∷ pre, post, ap (λ ids. y ∷ ids) e)
]

-- The loop from the timed-out id on.
pub record Restarted (h : Hw) (fs qs : List ℕ) (out : Outcome (Hw × Bool)) : Type 0 where
  pub h' : Hw
  pub again : Bool
  pub datagrams : List (List ℕ)
  pub returns : out ≡ done (h', again)
  pub which : Again h fs datagrams
  pub inv : Inv h' fs qs []
  pub kept : h' ≡ after_resend h h'
  pub wrote : h'.written ≡ h.written ++ datagrams

pub restarts :
    (conn : Conn) (now : ℕ) (h : Hw) (fs qs : List ℕ)
    → Works conn
    → Inv h fs qs []
    → Restarted h fs qs (resend_loop conn (h.flyingids.n + 1) now h.timeoutid false h)
restarts conn now h fs qs works v = elim (Bool-cases (mem fs h.timeoutid)) [
  | inl there ↦
      let (pre, post, e) = split_at fs h.timeoutid there in
      let r =
        resend_loop-Resent (h.flyingids.n + 1) conn now false h fs qs pre (h.timeoutid ∷ post) works
          v e
          (omega
            (arith, v.flying_ids.counted, ap length e, length-append pre (h.timeoutid ∷ post))) in
      record {
        h' = r.h';
        again = ltb 0 (length r.ids);
        datagrams = map (λ p. p.request_bytes) r.packs;
        returns = r.returns;
        which = record {
          pre = pre;
          ids = r.ids;
          left = r.left;
          packs = r.packs;
          split = e ∙ ap (λ ids. pre ++ ids) r.split;
          starts = inl (post, sym r.split);
          stops = r.stops;
          found = r.found;
          datagrams_are = refl;
        };
        inv = r.inv;
        kept = r.kept;
        wrote = r.wrote;
      }
  | inr gone ↦ record {
    h' = h;
    again = false;
    datagrams = [];
    returns = loop_ends gone;
    which = record {
      pre = fs;
      ids = [];
      left = [];
      packs = [];
      split = sym (append-nil fs);
      starts = inr (gone, refl);
      stops = tt;
      found = tt;
      datagrams_are = refl;
    };
    inv = v;
    kept = refl;
    wrote = sym (append-nil h.written);
  }
]
  where
    loop_ends :
        mem fs h.timeoutid ≡ false
        → resend_loop conn (h.flyingids.n + 1) now h.timeoutid false h ≡ done (h, false)
    loop_ends gone = elim (Option-cases (get h.flying h.timeoutid)) [
      | inl e ↦
          ap (λ n. resend_loop conn n now h.timeoutid false h) {x = h.flyingids.n + 1}
            {y = suc h.flyingids.n} (omega arith)
          ∙ resend_loop_gone h.flyingids.n conn now h.timeoutid false h e
      | inr (p, found) ↦ absurd (
          both_ways (has h.replied h.timeoutid) (v.one_of h.timeoutid) gone
            (has-some h.flying h.timeoutid found))
    ]
      where
        both_ways : {a c : Bool} (b : Bool) → (a || b || false) ≡ c → c ≡ false → a ≡ true → ⊥
        both_ways b e f g = ground arith
