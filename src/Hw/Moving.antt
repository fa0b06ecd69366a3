-- ===== src/Hw/Moving.antt =====
-- Between two steps nothing waits without need: what `sendnext` and `returnreply` leave.
use ipbus.Common.{
  ℕ, ◌<◌, ◌≡◌, sym, ap, subst, ◌∙◌, ◌⊎◌, Bool, false, ◌||◌, List, [], ◌∷◌, ◌++◌, Option, arith,
}
use ipbus.Outcome.{Outcome}
use ipbus.Protocol.{Error}
use ipbus.Packet.{Packet}
use ipbus.PacketLog.{PacketLog, has}
use ipbus.Hw.{Hw}
use ipbus.Hw.Inv.{Inv}
use ipbus.Hw.SendNext.Window.{Sends}
use ipbus.Hw.ReturnReply.Order.{FirstWaits}

-- The oldest of the ids that were sent has no reply yet, and unless a lost packet is being handled, no
-- id waits to be sent while fewer than `maxflight` packets are in flight.
pub record Moving (replied : PacketLog Packet) (handlinglost : Bool) (inflight maxflight : ℕ)
    (fs qs : List ℕ) : Type 0 where
  pub room : 0 < maxflight
  pub first_waits : FirstWaits replied fs
  pub full : handlinglost ≡ false → (qs ≡ []) ⊎ (inflight ≡ maxflight)

abbrev pub IsMoving : Hw → List ℕ → List ℕ → Type 0
IsMoving h = Moving h.replied h.handlinglost h.inflight h.maxflight

FirstWaits-append :
    (h : Hw) (fs moved rest : List ℕ) {qs : List ℕ}
    → Inv h fs qs []
    → qs ≡ moved ++ rest
    → FirstWaits h.replied fs
    → FirstWaits h.replied (fs ++ moved)
FirstWaits-append h (x ∷ fs) moved rest v e w = w
FirstWaits-append h [] [] rest v e w = tt
FirstWaits-append h [] (x ∷ moved) rest v e w =
    no_reply (has h.flying x) (has h.replied x) (v.one_of x)
  where
    no_reply : (a b : Bool) → (a || b || false) ≡ false → b ≡ false
    no_reply a b e = ground arith

pub Sends-Moving :
    (h : Hw) (fs qs : List ℕ) {out : Outcome (Hw × Option Error)} (s : Sends h fs qs [] out)
    → Inv h fs qs []
    → 0 < h.maxflight
    → FirstWaits h.replied fs
    → IsMoving s.h' (fs ++ s.moved) s.rest
Sends-Moving h fs qs s v room w = record {
  room = subst (λ g. 0 < g.maxflight) (sym s.kept) room;
  first_waits =
      subst (λ g. FirstWaits g.replied (fs ++ s.moved)) (sym s.kept)
        (FirstWaits-append h fs s.moved s.rest v s.split w);
  full = λ l. s.full (sym (ap (λ g. g.handlinglost) s.kept) ∙ l);
}
