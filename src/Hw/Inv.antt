-- ===== src/Hw/Inv.antt =====
-- What holds of a connection between two steps, on the components that the flow of packets uses.
pub mod Moves
pub mod Back
use ipbus.Common.{
  ℕ, ◌+◌, ◌-◌, ◌≤◌, ◌<◌, ◌≡◌, ◌≢◌, refl, sym, ap, subst, map, map-append, ◌∙◌, Bool-cases, inl, inr,
  ==_iff, ==_self, if◌then◌else◌, Bool, true, false, not, ◌&&◌, ◌||◌, List, [], ◌∷◌, ◌++◌, length,
  length-append, Option, none, some, arith, ◌==◌,
}
use ipbus.IdLog.{IdLog}
use ipbus.IdLog.Ring.{Holds}
use ipbus.IdLog.Effects.{Becomes}
use ipbus.Packet.{Packet}
use ipbus.PacketLog.{PacketLog, get, add, remove, has}
use ipbus.PacketLog.Laws.{
  IsMap, size, get-add, get-remove, has-some, has-add, has-remove, size-add, size-remove, IsMap-add,
  IsMap-remove,
}
use ipbus.Hw.{Hw}
use ipbus.Hw.Answer.{Asked, ask_of, IsReply}
use ipbus.Hw.Ids.{
  mem, mem-append, mem-eq, InLine, InLine-distinct, InLine-append, next_fresh, follow,
}

-- What the last of some packets with an id asks for.
unfoldable pub asked : List Packet → ℕ → Asked
asked [] k = ([], [])
asked (p ∷ ps) k = if p.id == k && not (mem (map (λ q. q.id) ps) k) then ask_of p else asked ps k

-- The packet has the id `k`, and asks for what was asked for under it.
abbrev pub IsFor : (ℕ → Asked) → ℕ → Packet → Type 0
IsFor asks k p = (p.id ≡ k) × (ask_of p ≡ asks k)

-- The packet has the id `k`, and the replies to what was asked for under it.
abbrev pub Answers : (ℕ → Asked) → List (List ℕ) → ℕ → Packet → Type 0
Answers asks arrived k p = (p.id ≡ k) × IsReply arrived (asks k) p

pub asked-append :
    (ps : List Packet) (p : Packet) (k : ℕ)
    → asked (ps ++ (p ∷ [])) k ≡ (if p.id == k then ask_of p else asked ps k)
unfolding asked
asked-append [] p k = ground arith
asked-append (q ∷ ps) p k = ground (
  arith,
  asked-append ps p k,
  mem-append (map (λ r. r.id) ps) (p.id ∷ []) k,
  ap (λ l. mem l k) (map-append (λ r. r.id) ps (p ∷ [])),
  apart,
)
  where
    apart : (p.id == k) ≡ true → (q.id == k) ≡ true → q.id ≡ p.id
    apart e f = ground arith

-- One more packet with the id `x`: what it asks for is asked under `x`, and the rest is the same.
pub asked-append_other :
    (ps : List Packet) (p : Packet) (x k : ℕ)
    → p.id ≡ x
    → (x == k) ≡ false
    → asked (ps ++ (p ∷ [])) k ≡ asked ps k
asked-append_other ps p x k e other =
    asked-append ps p k ∙ ap (λ b. if b then ask_of p else asked ps k) (ap (λ n. n == k) e ∙ other)

pub asked-append_self :
    (ps : List Packet) (p : Packet) (x : ℕ) → p.id ≡ x → IsFor (asked (ps ++ (p ∷ []))) x p
asked-append_self ps p x e = (
  e,
  sym (
      asked-append ps p x
      ∙ ap (λ b. if b then ask_of p else asked ps x) (ap (λ n. n == x) e ∙ ==_self x)),
)

-- Each packet of a log is right for the id under which it is there.
abbrev pub Keyed : (ℕ → Packet → Type 0) → PacketLog Packet → Type 0
Keyed P l = (k : ℕ) (p : Packet) → get l k ≡ some p → P k p

pub Keyed-map :
    (P Q : ℕ → Packet → Type 0) (l : PacketLog Packet)
    → ((k : ℕ) (p : Packet) → P k p → Q k p)
    → Keyed P l
    → Keyed Q l
Keyed-map P Q l f h k p found = f k p (h k p found)

pub Keyed-add :
    (P : ℕ → Packet → Type 0) (l : PacketLog Packet) (x : ℕ) (p : Packet)
    → Keyed P l
    → P x p
    → Keyed P (add l x p)
Keyed-add P l x p h e k q found = elim (Bool-cases (x == k)) [
  | inl same ↦
      subst (λ r. P k r)
        (ap (or_else q)
          (sym (get-add l x k p ∙ ap (λ b. if b then some p else get l k) same) ∙ found))
        (subst (λ n. P n p) ((==_iff x k).0 same) e)
  | inr other ↦
      h k q (sym (get-add l x k p ∙ ap (λ b. if b then some p else get l k) other) ∙ found)
]
  where
    or_else : Packet → Option Packet → Packet
    or_else q none = q
    or_else q (some r) = r

pub Keyed-remove :
    (P : ℕ → Packet → Type 0) (l : PacketLog Packet) (x : ℕ) → Keyed P l → Keyed P (remove l x)
Keyed-remove P l x h k q found = elim (Bool-cases (x == k)) [
  | inl same ↦
      absurd (
        nothing_there (sym (get-remove l x k ∙ ap (λ b. if b then none else get l k) same) ∙ found))
  | inr other ↦ h k q (sym (get-remove l x k ∙ ap (λ b. if b then none else get l k) other) ∙ found)
]
  where
    nothing_there : ◌≢◌ {A = Option Packet} none (some q)
    nothing_there e = cc

-- Where nothing is in the log under `x`, what is right under `x` may change.
pub Keyed-change :
    (P Q : ℕ → Packet → Type 0) (l : PacketLog Packet) (x : ℕ)
    → ((k : ℕ) (p : Packet) → (x == k) ≡ false → P k p → Q k p)
    → has l x ≡ false
    → Keyed P l
    → Keyed Q l
Keyed-change P Q l x agree gone h k q found = elim (Bool-cases (x == k)) [
  | inl same ↦
      absurd (not_both (sym (has-some l k found) ∙ sym (ap (has l) ((==_iff x k).0 same)) ∙ gone))
  | inr other ↦ agree k q other (h k q found)
]
  where
    not_both : true ≢ false
    not_both e = cc

-- `fs` are the ids whose packets were sent and whose responses were not yet handed on, `qs` those
-- that wait to be sent. The ids of `ms` are in `fs`, but their packets are with the step that runs.
pub record Flow (asks : ℕ → Asked) (arrived : List (List ℕ))
    (tosend flying replied : PacketLog Packet) (queuedids flyingids : IdLog)
    (next_id inflight maxflight : ℕ) (fs qs ms : List ℕ) : Type 0 where
  pub flying_ids : Holds flyingids fs
  pub flying_max : flyingids.max ≡ 32
  pub queued_ids : Holds queuedids qs
  pub queued_max : queuedids.max ≡ 256
  pub in_line : InLine (fs ++ qs) next_id
  pub tosend_map : IsMap tosend.packets
  pub flying_map : IsMap flying.packets
  pub tosend_is : (k : ℕ) → has tosend k ≡ mem qs k
  pub one_of : (k : ℕ) → (has flying k || has replied k || mem ms k) ≡ mem fs k
  pub not_both : (k : ℕ) → (has flying k && has replied k) ≡ false
  pub not_missing : (k : ℕ) → (mem ms k && (has flying k || has replied k)) ≡ false
  pub tosend_keyed : Keyed (IsFor asks) tosend
  pub flying_keyed : Keyed (IsFor asks) flying
  pub replied_keyed : Keyed (Answers asks arrived) replied
  pub counted : size flying ≡ inflight
  pub window : inflight ≤ maxflight

abbrev pub Inv : Hw → List ℕ → List ℕ → List ℕ → Type 0
Inv h =
    Flow (asked h.taken) h.arrived h.tosend h.flying h.replied h.queuedids h.flyingids h.next_id
      h.inflight h.maxflight

-- There is a slot in `flyingids` for each packet that may still be sent before one is answered.
abbrev pub HasSlots : Hw → Type 0
HasSlots h = h.flyingids.n + (h.maxflight - h.inflight) ≤ 32

module _ {asks : ℕ → Asked} {arrived : List (List ℕ)} {tosend flying replied : PacketLog Packet}
    {queuedids flyingids : IdLog} {next_id inflight maxflight : ℕ} {fs qs ms : List ℕ}
    (v : Flow asks arrived tosend flying replied queuedids flyingids next_id inflight maxflight fs
      qs ms) where
  pub few : length (fs ++ qs) ≤ 288
  few = omega (
    arith,
    length-append fs qs,
    v.flying_ids.counted,
    v.flying_ids.fits,
    v.flying_max,
    v.queued_ids.counted,
    v.queued_ids.fits,
    v.queued_max,
  )

  -- The next id is in none of the logs.
  pub next_is_fresh : (mem fs next_id ≡ false) × (mem qs next_id ≡ false)
  next_is_fresh = ground (
    arith,
    next_fresh (fs ++ qs) next_id v.in_line (omega (arith, few)),
    mem-append fs qs next_id,
  )
