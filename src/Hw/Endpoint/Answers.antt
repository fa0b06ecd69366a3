-- ===== src/Hw/Endpoint/Answers.antt =====
-- What the users get back for what they sent.
use ipbus.Packet.{Packet}
use ipbus.Hw.Endpoint.{Endpoint}
use ipbus.Hw.Endpoint.Live.{Live}
