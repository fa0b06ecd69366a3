-- ===== src/Hw/Endpoint/Served.antt =====
-- Every run of a connection with its channels is a run of the connection.
use ipbus.Common.{List}
use ipbus.Packet.{Packet}
use ipbus.Hw.{Hw}
use ipbus.Hw.Endpoint.{Endpoint}
use ipbus.Hw.Endpoint.Live.{Live}
