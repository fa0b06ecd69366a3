-- ===== src/Hw/Trace.antt =====
-- Runs of a connection: steps of `Run`, `ConfigDevice` and `handlelost`, one after the other in any
-- order, from the state of `newhw`. A step is one of those functions of Hw.Run and Hw.Lost that
-- returned.
pub mod Start
pub mod Requests
pub mod Keeps
pub mod Through
pub mod Order
pub mod Progress
use ipbus.Common.{ℕ, ◌%◌, ◌≡◌, ◌≢◌, ◌⊎◌, List, [], ◌∷◌, ◌++◌, length}
use ipbus.Outcome.{Outcome, done}
use ipbus.Packet.{Packet}
use ipbus.Packet.Parse.Ends.{IsControl}
use ipbus.Status.{Slice, TargetStatus}
use ipbus.Hw.{Hw, Conn, new_hw}
use ipbus.Hw.Ids.{IsId}
use ipbus.Hw.Run.{on_incoming, on_reply, config_starts, config_ends, report}
use ipbus.Hw.Run.HandBack.{HasSlotsBehind}
use ipbus.Hw.Run.Reply.{id_of}
use ipbus.Hw.Lost.{lost_starts, lost_ends}

-- What is asked of a run: when `ConfigDevice` may end, by the packets that were taken from the users so
-- far and the next id that the device reports, and which datagrams `Run` may take.
pub record Rules : Type 1 where
  pub may_end : List Packet → ℕ → Type 0
  pub may_take : Hw → Slice → Type 0

-- A datagram is a status, or a control packet of whole words, and `flyingids` has a slot left.
abbrev pub IsFit : Hw → Slice → Type 0
IsFit h rep =
    (id_of rep ≡ 0)
    ⊎ ((id_of rep ≢ 0) × IsControl rep.bytes × (length rep.bytes % 4 ≡ 0) × HasSlotsBehind h)

-- `ConfigDevice` ends, with an id that is not 0, before a packet is taken, and the datagrams are fit.
abbrev pub usual : Rules
usual = record { may_end = λ taken next. (taken ≡ []) × IsId next; may_take = IsFit }

-- A step from one state to another, with the packets that it took from the users. A
-- status is taken from the channel of statuses.
pub data Step (conn : Conn) (rules : Rules) : Hw → List Packet → Hw → Type 0 where
  incoming :
      {h h' : Hw}
      → (now : ℕ) → (pack : Packet) → on_incoming conn now pack h ≡ done h'
      → Step conn rules h (pack ∷ []) h'
  answer :
      {h h' : Hw}
      → (now : ℕ) → (rep : Slice) → rules.may_take h rep
      → on_reply conn now rep h ≡ done h'
      → Step conn rules h [] h'
  status_asked : {h h' : Hw} → config_starts conn h ≡ done h' → Step conn rules h [] h'
  timed_out : {h h' : Hw} → lost_starts conn h ≡ done h' → Step conn rules h [] h'
  recovered :
      {h h' : Hw}
      → (now : ℕ) → (st : TargetStatus) → (sts : List TargetStatus) → h.statuses ≡ st ∷ sts
      → lost_ends conn now st (record h { statuses = sts }) ≡ done h'
      → Step conn rules h [] h'
  reported : {h : Hw} → Step conn rules h [] (report h)

-- The states that runs reach, with all packets of the users so far.
pub data Reach (conn : Conn) (waittime : ℕ) (rules : Rules) : Hw → List Packet → Type 0 where
  start : Reach conn waittime rules (new_hw waittime) []
  and_then :
      {h h' : Hw} {packs more : List Packet}
      → Reach conn waittime rules h packs
      → Step conn rules h more h'
      → Reach conn waittime rules h' (packs ++ more)
  and_configured :
      {h : Hw} {packs : List Packet}
      → (st : TargetStatus) → (sts : List TargetStatus) → Reach conn waittime rules h packs
      → h.statuses ≡ st ∷ sts
      → rules.may_end packs st.nextid
      → Reach conn waittime rules (config_ends st (record h { statuses = sts })) packs
