-- ===== src/PacketLog.antt =====
-- hw_stuff.go: `packetlog`, a map from packet ids to packets that is owned by the goroutine `run` and
-- reached by messages only. The map is an association list; the order in which Go ranges over a map
-- is not fixed, and nothing here depends on the order of the list.
pub mod Laws
pub mod Refine
mod Tests
use ipbus.Common.{
  ℕ, Bool, true, false, not, ◌&&◌, ◌||◌, List, [], ◌∷◌, ◌++◌, Option, none, some, ◌==◌,
  if◌then◌else◌,
}

pub record PacketLog {ℓ} (P : Type ℓ) : Type ℓ where
  pub packets : List (ℕ × P)

module _ {ℓ} {P : Type ℓ} where
  -- `m[k]`, with its second result as `some`; `delete(m, k)`; `m[k] = v`
  unfoldable pub lookup : List (ℕ × P) → ℕ → Option P
  lookup [] k = none
  lookup ((j, p) ∷ l) k = if j == k then some p else lookup l k

  unfoldable pub delete : List (ℕ × P) → ℕ → List (ℕ × P)
  delete [] k = []
  delete ((j, p) ∷ l) k = let rest = delete l k in if j == k then rest else (j, p) ∷ rest

  unfoldable pub put : List (ℕ × P) → ℕ → P → List (ℕ × P)
  put l k p = (k, p) ∷ delete l k

-- `newpacketlog`
abbrev pub new_packet_log {ℓ} : {P : Type ℓ} → PacketLog P
new_packet_log = record { packets = [] }

-- The messages that `run` selects from, one constructor for each of the channels.
pub data Message {ℓ} (P : Type ℓ) : Type ℓ where
  chadd : ℕ → P → Message P
  chget : ℕ → Message P
  chgetall : Message P
  chremove : ℕ → Message P

-- What comes back on the channel of the message, if it has one: one `packidok`, or several and then
-- the close.
pub data Answer {ℓ} (P : Type ℓ) : Type ℓ where
  nothing : Answer P
  one : Option P → Answer P
  several : List (ℕ × P) → Answer P

-- One round of `run`.
unfoldable pub serve {ℓ} : {P : Type ℓ} → PacketLog P → Message P → PacketLog P × Answer P
serve l (chadd id pack) = (record { packets = put l.packets id pack }, nothing)
serve l (chget id) = (l, one (lookup l.packets id))
serve l chgetall = (l, several l.packets)
serve l (chremove id) = (record { packets = delete l.packets id }, nothing)

abbrev pub found {ℓ} : {P : Type ℓ} → Answer P → Option P
found (one o) = o
found _ = none

-- The loop of `getall` over what it receives.
unfoldable pub collect {ℓ} : {P : Type ℓ} → List (ℕ × P) → List (ℕ × P) → List (ℕ × P)
collect m [] = m
collect m ((id, pack) ∷ rest) = collect (put m id pack) rest

abbrev pub received {ℓ} : {P : Type ℓ} → Answer P → List (ℕ × P)
received (several l) = l
received _ = []

module _ {ℓ} {P : Type ℓ} where
  -- The methods: each sends one message and waits for the answer if there is one.
  unfoldable pub add : PacketLog P → ℕ → P → PacketLog P
  unfolding serve
  add l id pack = (serve l (chadd id pack)).0

  unfoldable pub get : PacketLog P → ℕ → Option P
  unfolding serve
  get l id = found (serve l (chget id)).1

  unfoldable pub getall : PacketLog P → List (ℕ × P)
  unfolding serve collect
  getall l = collect [] (received (serve l chgetall).1)

  unfoldable pub remove : PacketLog P → ℕ → PacketLog P
  unfolding serve
  remove l id = (serve l (chremove id)).0

abbrev pub is_some {ℓ} : {A : Type ℓ} → Option A → Bool
is_some none = false
is_some (some a) = true

-- Whether a log has a packet for an id.
unfoldable pub has {ℓ} : {P : Type ℓ} → PacketLog P → ℕ → Bool
unfolding get
has l id = is_some (get l id)
