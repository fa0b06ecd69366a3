-- ===== src/Hw/Endpoint/Tests.antt =====
-- Two packets are sent; their replies come in the other order.
use ipbus.Common.{false, ℕ, ◌*◌, List, [], ◌∷◌, ◌++◌, replicate, none, pos, drop}
use ipbus.Packet.{Packet}
use ipbus.Packet.Add
use ipbus.TransactionHeader
use ipbus.PacketHeader
use ipbus.Status.{Slice}
use ipbus.Register.{Register}
use ipbus.Target.Calls.{Call, reading, dispatching}
use ipbus.Hw.{Hw}
use ipbus.Hw.Endpoint.{Endpoint, new_endpoint, Read}
use ipbus.Hw.Endpoint.Live.{Live}
use ipbus.Hw.Tests.Runs.{word_reply}

abbrev reply : ℕ → Slice
reply id = record { bytes = (word_reply id).bytes; spare = replicate 1488 0 }

abbrev read_reply : ℕ → List ℕ → Read
read_reply id buffer = record {
  n = 12;
  buffer = (word_reply id).bytes ++ drop 12 buffer;
  error = none;
}

abbrev endpoint : Hw → List Packet → List Slice → ℕ → Endpoint
endpoint h packs reps packsreceived = record (new_endpoint 1000) {
  hw = h;
  incoming = packs;
  replies = reps;
  bytesreceived = 12 * packsreceived;
  packsreceived = packsreceived;
}

abbrev one_register : Register
one_register = record {
  name = "one";
  addr = 0x100;
  masks = [];
  noninc = false;
  size = pos 1;
  msks = [];
}

abbrev two_reads : List Call
two_reads =
    reading false one_register 1 7 ∷ dispatching ∷ reading false one_register 1 8 ∷ dispatching ∷ []
