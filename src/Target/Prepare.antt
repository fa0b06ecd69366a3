-- ===== src/Target/Prepare.antt =====
-- `Target.preparepackets`: requests become transactions in packets, one request at a time. The
-- packets are a list; the source's `p` points at the last of them, and is kept apart from those in
-- front of it here.
pub mod Room
pub mod Reads
pub mod Writes
pub mod Requests
pub mod Sequence
mod Tests
use ipbus.Common.{
  ℕ, zero, suc, ◌+◌, ◌-◌, ◌*◌, ◌%◌, ◌^◌, Bool, true, false, ◌||◌, List, [], ◌∷◌, ◌++◌, Option, none,
  some, length, take, drop, ltb, ◌==◌, if◌then◌else◌, u8, u32,
}
use ipbus.Outcome.{Outcome, done, panic, stuck, ◌>>=◌}
use ipbus.Protocol.{Error, control, read, write, rmwbits, rmwsum}
use ipbus.Packet.{Packet, Transaction, emptypacket, newrequesttransaction, space, sub64}
use ipbus.Packet.Add.{add, is_read, is_write}
use ipbus.Target.{UsrRequest}

-- The packets in front, and the last one.
abbrev pub Packs : Type 0
Packs = List Packet × Packet

abbrev pub all_packets : Packs → List Packet
all_packets (front, p) = front ++ (p ∷ [])

-- A new packet if the last one has less than the given space.
unfoldable pub make_room : ℕ → ℕ → Packs → Packs
make_room least_req least_resp (front, p) =
    let (reqspace, respspace) = space p in
    if ltb reqspace least_req || ltb respspace least_resp
    then (front ++ (p ∷ []), emptypacket control)
    else (front, p)

-- `add` to the last packet: its error is dropped by the reads and the read-modify-writes.
unfoldable pub add_ignoring : Packs → Transaction → Outcome Packs
add_ignoring (front, p) t = do (p', _) ← add p t; done (front, p')

unless_error : List Packet → Packet → Option Error → Outcome Packs
unless_error front p none = done (front, p)
unless_error front p (some e) = panic

-- The writes panic on an error.
unfoldable pub add_or_panic : Packs → Transaction → Outcome Packs
unfolding unless_error
add_or_panic (front, p) t = do (p', e) ← add p t; unless_error front p' e

-- `if ntoread > nwords { … }; if ntoread > 255 { … }`
abbrev pub clip : ℕ → ℕ → ℕ
clip n nwords = let m = if ltb nwords n then nwords else n in if ltb 255 m then 255 else m

-- The address of the next chunk: it moves on for an incrementing request only.
abbrev pub next_addr : Bool → ℕ → ℕ → ℕ
next_addr moves addr n = if moves then u32 (addr + u32 n) else addr

-- `for nwords > 0` of a read, on fuel.
unfoldable pub read_loop : ℕ → UsrRequest → ℕ → ℕ → Packs → Outcome Packs
read_loop fuel req zero addr packs = done packs
read_loop zero req (suc n) addr packs = stuck
read_loop (suc fuel) req (suc n) addr packs = do
  let roomy = make_room 2 2 packs
  let ntoread = clip (sub64 (space (roomy.1)).1 1) (suc n)
  let left = suc n - ntoread
  packs' ← add_ignoring roomy (
      newrequesttransaction req.typeid (u8 ntoread) addr req.input req.resp req.byteslice
        (left == 0))
  read_loop fuel req left (next_addr (req.typeid == read) addr ntoread) packs'

-- `for nwords > 0` of a write, on fuel; `index` counts the words that are written.
unfoldable pub write_loop : ℕ → UsrRequest → ℕ → ℕ → ℕ → Packs → Outcome Packs
write_loop fuel req zero index addr packs = done packs
write_loop zero req (suc n) index addr packs = stuck
write_loop (suc fuel) req (suc n) index addr packs = do
  let roomy = make_room 3 1 packs
  let ntowrite = clip (sub64 (space (roomy.1)).0 2) (suc n)
  let left = suc n - ntowrite
  packs' ← add_or_panic roomy (
      newrequesttransaction req.typeid (u8 ntowrite) addr (take ntowrite (drop index req.input))
        req.resp req.byteslice (left == 0))
  write_loop fuel req left (index + ntowrite) (next_addr (req.typeid == write) addr ntowrite) packs'

-- A read-modify-write is one transaction of one word.
unfoldable pub add_rmw : ℕ → ℕ → UsrRequest → Packs → Outcome Packs
add_rmw least_req least_resp req packs =
    add_ignoring (make_room least_req least_resp packs)
      (newrequesttransaction req.typeid 1 req.addr req.input req.resp req.byteslice true)

-- The switch on the type of a request that is no dispatch.
unfoldable pub add_request : UsrRequest → Packs → Outcome Packs
add_request req packs =
    if is_read req.typeid
    then read_loop req.nwords req req.nwords req.addr packs
    else if is_write req.typeid
    then write_loop (length req.input) req (length req.input) 0 req.addr packs
    else if req.typeid == rmwbits
    then add_rmw 4 2 req packs
    else if req.typeid == rmwsum
    then add_rmw 3 2 req packs
    else done packs

-- The last packet, which is new if there is none.
unfoldable pub last_packet : List Packet → List Packet → Packs
last_packet front [] = (front, emptypacket control)
last_packet front (p ∷ []) = (front, p)
last_packet front (p ∷ q ∷ rest) = last_packet (front ++ (p ∷ [])) (q ∷ rest)

-- One request: the packets afterwards, and those that go to the hardware.
unfoldable pub prepare : List Packet → UsrRequest → Outcome (List Packet × List Packet)
prepare packs req =
    if req.dispatch
    then done ([], packs)
    else (add_request req (last_packet [] packs) >>= λ packs'. done (all_packets packs', []))

-- The loop of `preparepackets` on the requests in the order of their arrival: the packets that are
-- left, and those that went to the hardware.
unfoldable pub prepare_all : List Packet → List UsrRequest → Outcome (List Packet × List Packet)
prepare_all packs [] = done (packs, [])
prepare_all packs (req ∷ reqs) = do
  (packs', sent) ← prepare packs req
  (packs'', more) ← prepare_all packs' reqs
  done (packs'', sent ++ more)
