-- ===== src/Hw/SendNext/Window.antt =====
-- What `sendnext` does to a connection on which no write fails.
use ipbus.Common.{
  ℕ, zero, suc, ◌+◌, ◌<◌, ◌≡◌, ◌≢◌, refl, sym, ap, subst, ◌∙◌, Bool, true, false, ◌&&◌, ◌||◌, List,
  [], ◌∷◌, ◌++◌, map, length, append_assoc, append-nil, Option, none, some, ◌⊎◌, Bool-cases, inl,
  inr, arith, ltb, ◌==◌, ==_self, if◌then◌else◌,
}
use ipbus.Outcome.{Outcome, done, ◌>>=◌}
use ipbus.Protocol.{Error, no_queued_id}
use ipbus.IdLog.Effects.{oldest_some, oldest_none}
use ipbus.Packet.{Packet}
use ipbus.PacketLog
use ipbus.PacketLog.{PacketLog, has, get, lookup, getall, is_some}
use ipbus.PacketLog.Laws.{get-remove, get-getall, IsMap}
use ipbus.Hw.{Hw, Conn}
use ipbus.Hw.Ids.{mem, mem-append, InLine-distinct}
use ipbus.Hw.Answer.{Asked}
use ipbus.Hw.Inv.{Answers, Keyed, Inv, few}
use ipbus.Hw.SendNext.{send_oldest, unless_failed, sendnext_loop, sendnext}
use ipbus.Hw.SendNext.Round.{Works, CanSend, after_send, Round, send_oldest-Round}

-- The packets of a log under some ids, in their order.
abbrev pub Found : PacketLog Packet → List ℕ → List Packet → Type 0
Found l [] [] = Unit
Found l (x ∷ xs) (p ∷ ps) = (get l x ≡ some p) × Found l xs ps
Found l _ _ = ⊥

-- Some packets have these ids, and the replies to what was asked for under them.
abbrev pub AreFor : (ℕ → Asked) → List (List ℕ) → List ℕ → List Packet → Type 0
AreFor asks arrived [] [] = Unit
AreFor asks arrived (x ∷ xs) (p ∷ ps) = Answers asks arrived x p × AreFor asks arrived xs ps
AreFor asks arrived _ _ = ⊥

pub Found-AreFor :
    (asks : ℕ → Asked) (arrived : List (List ℕ)) (l : PacketLog Packet) (xs : List ℕ)
    (ps : List Packet)
    → Keyed (Answers asks arrived) l
    → Found l xs ps
    → AreFor asks arrived xs ps
Found-AreFor asks arrived l [] [] h f = tt
Found-AreFor asks arrived l (x ∷ xs) (p ∷ ps) h (e, f) =
    (h x p e, Found-AreFor asks arrived l xs ps h f)
Found-AreFor asks arrived l [] (p ∷ ps) h f = absurd f
Found-AreFor asks arrived l (x ∷ xs) [] h f = absurd f

pub Found-remove :
    (l : PacketLog Packet) (x : ℕ) (xs : List ℕ) (ps : List Packet)
    → mem xs x ≡ false
    → Found (PacketLog.remove l x) xs ps
    → Found l xs ps
Found-remove l x [] [] h f = tt
Found-remove l x (y ∷ xs) (p ∷ ps) h (e, f) = (
  sym (get-remove l x y ∙ ap (λ b. if b then none else get l y) (apart h)) ∙ e,
  Found-remove l x xs ps (others h) f,
)
  where
    apart : (y == x || mem xs x) ≡ false → (x == y) ≡ false
    apart h = ground arith

    others : (y == x || mem xs x) ≡ false → mem xs x ≡ false
    others h = ground arith
Found-remove l x [] (p ∷ ps) h f = f
Found-remove l x (y ∷ xs) [] h f = f

-- The state `h'` after `sendnext`: the ids `moved` went out, and `rest` are still queued.
pub record Sends (h : Hw) (fs qs ms : List ℕ) (out : Outcome (Hw × Option Error)) : Type 0 where
  pub h' : Hw
  pub e : Option Error
  pub moved : List ℕ
  pub rest : List ℕ
  pub packs : List Packet
  pub returns : out ≡ done (h', e)
  pub split : qs ≡ moved ++ rest
  pub inv : Inv h' (fs ++ moved) rest ms
  pub can_send : CanSend h'
  pub kept : h' ≡ after_send h h'
  pub found : Found h.tosend moved packs
  pub wrote : h'.written ≡ h.written ++ map (λ p. p.request_bytes) packs
  pub full : h.handlinglost ≡ false → (rest ≡ []) ⊎ (h'.inflight ≡ h'.maxflight)
  pub held : h.handlinglost ≡ true → moved ≡ []

done-Sends :
    (h : Hw) (fs qs ms : List ℕ) (e : Option Error)
    → CanSend h
    → Inv h fs qs ms
    → (h.handlinglost ≡ false → (qs ≡ []) ⊎ (h.inflight ≡ h.maxflight))
    → Sends h fs qs ms (done (h, e))
done-Sends h fs qs ms e can v f = record {
  h' = h;
  e = e;
  moved = [];
  rest = qs;
  packs = [];
  returns = refl;
  split = refl;
  inv = subst (λ ids. Inv h ids qs ms) (sym (append-nil fs)) v;
  can_send = can;
  kept = refl;
  found = tt;
  wrote = sym (append-nil h.written);
  full = f;
  held = λ _. refl;
}

-- A round, and the rounds behind it.
bind-Sends :
    (h : Hw) (x : ℕ) (fs qs ms : List ℕ) {first : Outcome (Hw × Option Error)}
    (go_on : Hw → Outcome (Hw × Option Error))
    → h.handlinglost ≡ false
    → mem qs x ≡ false
    → (r : Round h x fs qs ms first) → Sends r.h' (fs ++ (x ∷ [])) qs ms (go_on r.h')
    → Sends h fs (x ∷ qs) ms (first >>= unless_failed go_on)
bind-Sends h x fs qs ms go_on on fresh r s = record {
  h' = s.h';
  e = s.e;
  moved = x ∷ s.moved;
  rest = s.rest;
  packs = r.p ∷ s.packs;
  returns = rw (r.returns) s.returns;
  split = ap (λ ids. x ∷ ids) s.split;
  inv = subst (λ ids. Inv s.h' ids s.rest ms) (append_assoc fs (x ∷ []) s.moved) s.inv;
  can_send = s.can_send;
  kept = s.kept ∙ ap (λ g. after_send g s.h') r.kept;
  found = (
    r.found,
    Found-remove h.tosend x s.moved s.packs (front fresh)
        (subst (λ l. Found l s.moved s.packs) r.one_less s.found),
  );
  wrote =
      s.wrote
      ∙ ap (λ w. w ++ map (λ p. p.request_bytes) s.packs) r.wrote
      ∙ append_assoc h.written (r.p.request_bytes ∷ []) (map (λ p. p.request_bytes) s.packs);
  full = λ l. s.full (ap (λ g. g.handlinglost) r.kept ∙ l);
  held = λ l. absurd (not_lost (sym on ∙ l));
}
  where
    not_lost : false ≢ true
    not_lost e = cc

    front : mem qs x ≡ false → mem s.moved x ≡ false
    front h = ground (arith, mem-append s.moved s.rest x, ap (λ ids. mem ids x) s.split)

sendnext_loop-Sends :
    (fuel : ℕ) (conn : Conn) (waiting : Bool) (now : ℕ) (h : Hw) (fs qs ms : List ℕ)
    → Works conn
    → CanSend h
    → Inv h fs qs ms
    → h.handlinglost ≡ false
    → length qs < fuel
    → (waiting ≡ false → qs ≡ [])
    → Sends h fs qs ms (sendnext_loop conn fuel waiting now h)
unfolding sendnext_loop send_oldest
sendnext_loop-Sends zero conn waiting now h fs qs ms works can v on f w = absurd (omega arith)
sendnext_loop-Sends (suc fuel) conn false now h fs qs ms works can v on f w =
    rw (the_test (ltb h.inflight h.maxflight))
      (done-Sends h fs qs ms none can v (λ _. inl (w refl)))
  where
    the_test : (b : Bool) → (b && false) ≡ false
    the_test true = refl
    the_test false = refl
sendnext_loop-Sends (suc fuel) conn true now h fs [] ms works can v on f w =
    elim (Bool-cases (ltb h.inflight h.maxflight)) [
      | inl room ↦
          rw (room, oldest_none h.queuedids v.queued_ids)
            (done-Sends h fs [] ms (some no_queued_id) can v (λ _. inl refl))
      | inr full ↦ rw full (done-Sends h fs [] ms none can v (λ _. inl refl))
    ]
sendnext_loop-Sends (suc fuel) conn true now h fs (x ∷ qs) ms works can v on f w =
    elim (Bool-cases (ltb h.inflight h.maxflight)) [
      | inl room ↦
          let r = send_oldest-Round conn now h x fs qs ms works can (ground arith) v in
          rw (room, oldest_some h.queuedids x qs v.queued_ids)
            (bind-Sends h x fs qs ms (sendnext_loop conn fuel true now) on
              (InLine-distinct fs qs x h.next_id v.in_line (omega (arith, few v))).1 r
              (sendnext_loop-Sends fuel conn true now r.h' (fs ++ (x ∷ [])) qs ms works r.can_send
                r.inv (ap (λ g. g.handlinglost) r.kept ∙ on) (omega arith)
                (λ e. absurd (not_both e))))
      | inr full ↦
          rw full (done-Sends h fs (x ∷ qs) ms none can v (λ _. inr (ground (arith, v.window))))
    ]
  where
    not_both : true ≢ false
    not_both e = cc

false-ne-true : false ≢ true
false-ne-true q = cc

-- An association list that has a key has an entry.
nonempty :
    (all : List (ℕ × Packet)) (x : ℕ) → is_some (lookup all x) ≡ true → ltb 0 (length all) ≡ true
unfolding lookup
nonempty [] x h = absurd (false-ne-true h)
nonempty (y ∷ all) x h = ground arith

-- The snapshot of `tosend` is empty only if nothing is queued.
none_waiting :
    (l : PacketLog Packet) (qs : List ℕ)
    → IsMap l.packets
    → ((k : ℕ) → has l k ≡ mem qs k)
    → ltb 0 (length (getall l)) ≡ false
    → qs ≡ []
unfolding has
none_waiting l [] v h e = refl
none_waiting l (x ∷ qs) v h e = absurd (
    false-ne-true (
      sym e
      ∙ nonempty (getall l) x
          (ap is_some (get-getall l x v) ∙ h x ∙ ap (λ b. b || mem qs x) (==_self x))))

-- `sendnext` on a connection on which no write fails, with a slot in `flyingids` for each packet that
-- may go out, neither panics nor runs for ever. Some of the oldest queued packets go out, in the order
-- in which they were queued: their datagrams are written in that order, and their ids move behind
-- those that were sent before. All queued packets have gone out afterwards, or `maxflight` packets are
-- in flight, unless a lost packet is being handled: then none goes out. The invariant holds again, and nothing else of the
-- state changes.
pub sendnext-Sends :
    (conn : Conn) (now : ℕ) (h : Hw) (fs qs ms : List ℕ)
    → Works conn
    → CanSend h
    → Inv h fs qs ms
    → Sends h fs qs ms (sendnext conn now h)
unfolding sendnext
sendnext-Sends conn now h fs qs ms works can v = elim (Bool-cases h.handlinglost) [
  | inl lost ↦
      subst cases (sym lost)
        (done-Sends h fs qs ms none can v (λ f. absurd (false-ne-true (sym f ∙ lost))))
  | inr not_lost ↦ subst cases (sym not_lost) (
      sendnext_loop-Sends (h.queuedids.n + 1) conn (ltb 0 (length (getall h.tosend))) now h fs qs ms
        works can v not_lost (omega (arith, v.queued_ids.counted))
        (none_waiting h.tosend qs v.tosend_map v.tosend_is))
]
  where
    cases : Bool → Type 0
    cases b = Sends h fs qs ms (
        if b
        then done (h, none)
        else sendnext_loop conn (h.queuedids.n + 1) (ltb 0 (length (getall h.tosend))) now h)
