-- ===== src/Hw/Endpoint/Live.antt =====
-- Runs of a connection with its channels: users send, `receive` and `Run` go round, and `ConfigDevice`
-- and `handlelost` go on with a status, in any order.
use ipbus.Common.{ℕ, ◌≡◌, true, List, [], ◌∷◌, ◌++◌, none}
use ipbus.Outcome.{done}
use ipbus.Packet.{Packet}
use ipbus.Status.{Slice, TargetStatus}
use ipbus.Hw.{Hw, Conn}
use ipbus.Hw.Run.{config_starts, config_ends}
use ipbus.Hw.Trace.{Rules}
use ipbus.Hw.Lost.{lost_ends}
use ipbus.Hw.Endpoint.{Endpoint, new_endpoint, send, Read, receive, Case, reply_in, run_round}

module _ (rules : Rules) where
  abbrev pub FirstFits : Hw → List Slice → Type 0
  FirstFits h [] = Unit
  FirstFits h (rep ∷ rest) = rules.may_take h rep

  -- What is asked of a round of `Run`.
  abbrev pub Fits : Case → Endpoint → Type 0
  Fits reply_in e = FirstFits e.hw e.replies
  Fits _ e = Unit

-- The states that runs reach, with all packets that `Send` took. Those that `Run` has not taken are in
-- the channel.
pub data Live (conn : Conn) (waittime : ℕ) (rules : Rules) : Endpoint → List Packet → Type 0 where
  begun : Live conn waittime rules (new_endpoint waittime) []
  sends :
      {e e' : Endpoint} {packs : List Packet}
      → Live conn waittime rules e packs
      → (p : Packet) → send p e ≡ done (e', none)
      → Live conn waittime rules e' (packs ++ (p ∷ []))
  receives :
      {e e' : Endpoint} {packs : List Packet}
      → Live conn waittime rules e packs
      → (conn_read : List ℕ → Read) → e.receiving ≡ true
      → receive conn_read e ≡ done e'
      → Live conn waittime rules e' packs
  goes_round :
      {e e' : Endpoint} {packs : List Packet}
      → Live conn waittime rules e packs
      → (now : ℕ) → (c : Case) → e.running ≡ true
      → Fits rules c e
      → run_round conn now c e ≡ done e'
      → Live conn waittime rules e' packs
  asks_status :
      {e : Endpoint} {h' : Hw} {packs : List Packet}
      → Live conn waittime rules e packs
      → config_starts conn e.hw ≡ done h'
      → Live conn waittime rules (record e { hw = h' }) packs
  configures :
      {e : Endpoint} {packs : List Packet}
      → Live conn waittime rules e packs
      → (given : List Packet) → packs ≡ given ++ e.incoming
      → (st : TargetStatus) → (sts : List TargetStatus) → e.hw.statuses ≡ st ∷ sts
      → rules.may_end given st.nextid
      → Live conn waittime rules
          (record e { hw = config_ends st (record (e.hw) { statuses = sts }) })
          packs
  recovers :
      {e : Endpoint} {h' : Hw} {packs : List Packet}
      → Live conn waittime rules e packs
      → (now : ℕ) → (st : TargetStatus) → (sts : List TargetStatus) → e.hw.statuses ≡ st ∷ sts
      → lost_ends conn now st (record (e.hw) { statuses = sts }) ≡ done h'
      → Live conn waittime rules (record e { hw = h' }) packs
