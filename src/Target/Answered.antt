-- ===== src/Target/Answered.antt =====
-- From the calls of a user to the responses: the packets of `preparepackets` go to the connection.
use ipbus.Common.{List, [], ◌∷◌, ◌++◌}
use ipbus.Outcome.{Outcome, done}
use ipbus.Packet.{Packet, Transaction}
use ipbus.Hw.Endpoint.{Endpoint}
use ipbus.Hw.Endpoint.Live.{Live}

abbrev joined : List (List Transaction) → List Transaction
joined [] = []
joined (ts ∷ tss) = ts ++ joined tss

-- Two outcomes of the loop.
abbrev handed : List Packet → List Packet → Outcome (List Packet × List Packet)
handed left sent = done (left, sent)
