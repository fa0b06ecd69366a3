-- ===== src/Target.antt =====
-- target.go: what a user asks of a target. `Prepare` splits requests into packets, `Calls` makes the
-- requests of the methods, `Masked` compares the masked write of a target with that of a
-- register, `Now` reads the responses of the blocking methods, and
-- `Answered` goes from the calls to the responses.
pub mod Prepare
pub mod Calls
pub mod Masked
pub mod Now
pub mod Answered
use ipbus.Common.{ℕ, Bool, List}
use ipbus.Packet.{Chan}

-- `usrrequest` of transaction.go
pub record UsrRequest : Type 0 where
  pub typeid : ℕ
  pub nwords : ℕ
  pub addr : ℕ
  pub input : List ℕ
  pub resp : Chan
  pub byteslice : Bool
  pub dispatch : Bool
