-- ===== src/Hw/Lost/Resend.antt =====
-- The packets that `handlelost` sends again.
use ipbus.Common.{
  ℕ, zero, suc, ◌≤◌, ◌<◌, ◌≡◌, refl, sym, ap, subst, ◌∙◌, Bool, true, false, ◌||◌, List, [], ◌∷◌,
  ◌++◌, map, length, length-append, append_assoc, append-nil, none, some, Option-cases, inl, inr,
  arith, ltb, ◌==◌, ==_self, if◌then◌else◌,
}
use ipbus.Outcome.{Outcome, done, ◌>>=◌}
use ipbus.Packet.{Packet}
use ipbus.PacketLog
use ipbus.PacketLog.{PacketLog, has, get, is_some}
use ipbus.PacketLog.Laws.{get-add, has-add, has-some, has-none}
use ipbus.Hw.{Hw, Conn}
use ipbus.Hw.Ids.{mem, mem-append, InLine, InLine-distinct, IsId, first_or, follow}
use ipbus.Hw.Answer.{Asked}
use ipbus.Hw.Inv.{Flow, Inv, few, next_is_fresh}
use ipbus.IdLog.{IdLog}
use ipbus.Hw.Inv.Back.{renewed}
use ipbus.Hw.SendNext.Round.{Works}
use ipbus.Hw.SendNext.Window.{Found}
use ipbus.Hw.Lost.{next_resend, write_again, resend_loop}

Found-add :
    (l : PacketLog Packet) (x : ℕ) (p : Packet) (xs : List ℕ) (ps : List Packet)
    → mem xs x ≡ false
    → Found (PacketLog.add l x p) xs ps
    → Found l xs ps
Found-add l x p [] [] h f = tt
Found-add l x p (y ∷ xs) (q ∷ ps) h (e, f) = (
  sym (get-add l x y p ∙ ap (λ b. if b then some p else get l y) (apart h)) ∙ e,
  Found-add l x p xs ps (others h) f,
)
  where
    apart : (y == x || mem xs x) ≡ false → (x == y) ≡ false
    apart h = ground arith

    others : (y == x || mem xs x) ≡ false → mem xs x ≡ false
    others h = ground arith
Found-add l x p [] (q ∷ ps) h f = f
Found-add l x p (y ∷ xs) [] h f = f

abbrev pub after_resend : Hw → Hw → Hw
after_resend h h' = record h { flying = h'.flying; written = h'.written }

next_resend-follow : (x : ℕ) → IsId x → next_resend x ≡ follow x
next_resend-follow x v = ground arith

write_again-Works :
    (conn : Conn) (now id : ℕ) (p : Packet) (h : Hw)
    → Works conn
    → write_again conn now id p h
      ≡ done (record h {
        written = h.written ++ (p.request_bytes ∷ []);
        flying = PacketLog.add h.flying id (record p { sent = now });
      })
unfolding write_again
write_again-Works conn now id p h works =
    rw (works h.written p.request_bytes, ==_self (length p.request_bytes)) refl

InLine-suffix : (xs ys : List ℕ) (next : ℕ) → InLine (xs ++ ys) next → InLine ys next
InLine-suffix [] ys next h = h
InLine-suffix (x ∷ xs) ys next h = InLine-suffix xs ys next h.2

-- The id behind those in flight is not one of them.
behind_fresh :
    {asks : ℕ → Asked} {arrived : List (List ℕ)} {tosend flying replied : PacketLog Packet}
    {queuedids flyingids : IdLog} {next inflight maxflight : ℕ} {ms : List ℕ} (fs qs : List ℕ)
    → Flow asks arrived tosend flying replied queuedids flyingids next inflight maxflight fs qs ms
    → mem fs (first_or next qs) ≡ false
behind_fresh fs [] v = (next_is_fresh v).0
behind_fresh {next = next} fs (y ∷ qs) v =
    (InLine-distinct fs qs y next v.in_line (omega (arith, few v))).0

-- The first of some ids, if there is one, is not in flight.
abbrev pub FirstGone : PacketLog Packet → List ℕ → Type 0
FirstGone l [] = Unit
FirstGone l (x ∷ xs) = has l x ≡ false

-- What the loop does from the first of the ids `post` on: the packets under `ids` go out again.
pub record Resent (h : Hw) (fs qs post : List ℕ) (again : Bool) (out : Outcome (Hw × Bool))
    : Type 0 where
  pub h' : Hw
  pub ids : List ℕ
  pub left : List ℕ
  pub packs : List Packet
  pub returns : out ≡ done (h', again || ltb 0 (length ids))
  pub split : post ≡ ids ++ left
  pub stops : FirstGone h.flying left
  pub inv : Inv h' fs qs []
  pub kept : h' ≡ after_resend h h'
  pub found : Found h.flying ids packs
  pub wrote : h'.written ≡ h.written ++ map (λ p. p.request_bytes) packs

redone-Sends :
    (h : Hw) (fs qs post : List ℕ) (again : Bool)
    → Inv h fs qs []
    → FirstGone h.flying post
    → Resent h fs qs post again (done (h, again))
redone-Sends h fs qs post again v gone = record {
  h' = h;
  ids = [];
  left = post;
  packs = [];
  returns = ap (λ b. done (h, b)) (sym (or_false again));
  split = refl;
  stops = gone;
  inv = v;
  kept = refl;
  found = tt;
  wrote = sym (append-nil h.written);
}
  where
    or_false : (b : Bool) → (b || false) ≡ b
    or_false true = refl
    or_false false = refl

gone_first :
    (h : Hw) (qs post : List ℕ)
    → get h.flying (first_or h.next_id (post ++ qs)) ≡ none
    → FirstGone h.flying post
gone_first h qs [] e = tt
gone_first h qs (x ∷ post) e = has-none h.flying x e

-- The packet under `x` goes out again, and those behind it.
and_behind :
    (h : Hw) (x : ℕ) (p p' : Packet) (h1 : Hw) (fs qs post : List ℕ) (again : Bool)
    {out : Outcome (Hw × Bool)}
    → get h.flying x ≡ some p
    → mem post x ≡ false
    → h1 ≡ after_resend h h1
    → h1.flying ≡ PacketLog.add h.flying x p'
    → h1.written ≡ h.written ++ (p.request_bytes ∷ [])
    → Resent h1 fs qs post true out
    → Resent h fs qs (x ∷ post) again out
and_behind h x p p' h1 fs qs post again found fresh kept added wrote r = record {
  h' = r.h';
  ids = x ∷ r.ids;
  left = r.left;
  packs = p ∷ r.packs;
  returns =
      r.returns
      ∙ ap (λ b. done (r.h', b)) (sym (or_true again (ltb 0 (length (x ∷ r.ids))) some_ids));
  split = ap (λ ids. x ∷ ids) r.split;
  stops = still_gone r.left (back fresh) (subst (λ l. FirstGone l r.left) added r.stops);
  inv = r.inv;
  kept = r.kept ∙ ap (λ g. after_resend g r.h') kept;
  found = (
    found,
    Found-add h.flying x p' r.ids r.packs (front fresh)
        (subst (λ l. Found l r.ids r.packs) added r.found),
  );
  wrote =
      r.wrote
      ∙ ap (λ w. w ++ map (λ q. q.request_bytes) r.packs) wrote
      ∙ append_assoc h.written (p.request_bytes ∷ []) (map (λ q. q.request_bytes) r.packs);
}
  where
    some_ids : ltb 0 (length (x ∷ r.ids)) ≡ true
    some_ids = ground arith

    or_true : (b c : Bool) → c ≡ true → (b || c) ≡ true
    or_true b c e = ground arith

    front : mem post x ≡ false → mem r.ids x ≡ false
    front h = ground (arith, mem-append r.ids r.left x, ap (λ ids. mem ids x) r.split)

    back : mem post x ≡ false → mem r.left x ≡ false
    back h = ground (arith, mem-append r.ids r.left x, ap (λ ids. mem ids x) r.split)

    still_gone :
        (left : List ℕ)
        → mem left x ≡ false
        → FirstGone (PacketLog.add h.flying x p') left
        → FirstGone h.flying left
    still_gone [] m g = tt
    still_gone (y ∷ left) m g = ground (arith, has-add h.flying x y p')

pub resend_loop_gone :
    (fuel : ℕ) (conn : Conn) (now id : ℕ) (again : Bool) (h : Hw)
    → get h.flying id ≡ none
    → resend_loop conn (suc fuel) now id again h ≡ done (h, again)
unfolding resend_loop
resend_loop_gone fuel conn now id again h e = rw (resend_loop, e) refl

resend_loop_found :
    (fuel : ℕ) (conn : Conn) (now id : ℕ) (again : Bool) (h : Hw) (p : Packet)
    → get h.flying id ≡ some p
    → resend_loop conn (suc fuel) now id again h
      ≡ (write_again conn now id p h >>= λ h'. resend_loop conn fuel now (next_resend id) true h')
unfolding resend_loop
resend_loop_found fuel conn now id again h p e = rw (resend_loop, e) refl

pub resend_loop-Resent :
    (fuel : ℕ) (conn : Conn) (now : ℕ) (again : Bool) (h : Hw) (fs qs pre post : List ℕ)
    → Works conn
    → Inv h fs qs []
    → fs ≡ pre ++ post
    → length post < fuel
    → Resent h fs qs post again
        (resend_loop conn fuel now (first_or h.next_id (post ++ qs)) again h)
resend_loop-Resent zero conn now again h fs qs pre post works v split l = absurd (omega arith)
resend_loop-Resent (suc fuel) conn now again h fs qs pre [] works v split l =
    elim (Option-cases (get h.flying (first_or h.next_id qs))) [
      | inl gone ↦
          rw (resend_loop_gone fuel conn now (first_or h.next_id qs) again h gone)
            (redone-Sends h fs qs [] again v tt)
      | inr (p, found) ↦ absurd (contradiction p found)
    ]
  where
    contradiction : (p : Packet) → get h.flying (first_or h.next_id qs) ≡ some p → ⊥
    contradiction p found =
        both_ways (has h.replied k) (v.one_of k) (behind_fresh fs qs v) (has-some h.flying k found)
      where
        k : ℕ
        k = first_or h.next_id qs

        both_ways : {a c : Bool} (b : Bool) → (a || b || false) ≡ c → c ≡ false → a ≡ true → ⊥
        both_ways b e f g = ground arith
resend_loop-Resent (suc fuel) conn now again h fs qs pre (x ∷ post) works v split l =
    elim (Option-cases (get h.flying x)) [
      | inl gone ↦
          rw (resend_loop_gone fuel conn now x again h gone)
            (redone-Sends h fs qs (x ∷ post) again v (has-none h.flying x gone))
      | inr (p, found) ↦
          let p' = record p { sent = now } in
          let h1 = record h {
            written = h.written ++ (p.request_bytes ∷ []);
            flying = PacketLog.add h.flying x p';
          } in
          rw
            (
              resend_loop_found fuel conn now x again h p found,
              write_again-Works conn now x p h works,
              next_resend-follow x line.0,
              sym line.1,
            )
            (and_behind h x p p' h1 fs qs post again found fresh refl refl refl (
              resend_loop-Resent fuel conn now true h1 fs qs (pre ++ (x ∷ [])) post works
                (renewed x p' [] v (has-some h.flying x found) (v.flying_keyed x p found))
                (split ∙ sym (append_assoc pre (x ∷ []) post)) (omega arith)))
    ]
  where
    line : InLine (x ∷ (post ++ qs)) h.next_id
    line = InLine-suffix pre (x ∷ (post ++ qs)) h.next_id (
        subst (λ ids. InLine ids h.next_id)
          (ap (λ ids. ids ++ qs) split ∙ append_assoc pre (x ∷ post) qs) v.in_line)

    short : length (x ∷ (post ++ qs)) ≤ 65535
    short = omega (
      arith,
      few v,
      ap length split,
      length-append fs qs,
      length-append pre (x ∷ post),
      length-append post qs,
    )

    fresh : mem post x ≡ false
    fresh =
        ground
          (arith, (InLine-distinct [] (post ++ qs) x h.next_id line short).1, mem-append post qs x)
