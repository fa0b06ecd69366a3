-- ===== src/Status/Tests.antt =====
-- A status that is sent and read, and the theorems at it.
use ipbus.Common.{
  ℕ, ◌≡◌, refl, List, [], ◌∷◌, ◌++◌, Option, none, some, length, drop, replicate, arith, IsU16, All,
}
use ipbus.Outcome.{done}
use ipbus.Protocol.{big_endian, control, status, resend}
use ipbus.PacketHeader.{PacketHeader, new_packet_header}
use ipbus.PacketHeader.RoundTrip
use ipbus.Status.{parse_status, new_resend_packet, new_status_packet}
use ipbus.Status.Reply.{
  front_bytes, slots_bytes, IsSlot, filled, parse_status-reply, new_packet_header-request,
}

abbrev header : ℕ → PacketHeader
header id = record { version = 2; pid = id; ptype = control; order = big_endian }

abbrev slots : ℕ → List (Option PacketHeader)
slots id = some (header id) ∷ none ∷ some (header 7) ∷ none ∷ []

header-IsValid : (id : ℕ) → IsU16 id → RoundTrip.IsValid (header id)
header-IsValid id h = record {
  version_is = refl;
  pid_fits = h;
  ptype_fits = omega arith;
  has_order = λ e. cc;
}

slots-IsSlot : (id : ℕ) → IsU16 id → All IsSlot (slots id)
slots-IsSlot id h = (header-IsValid id h, (tt, (header-IsValid 7 (omega arith), (tt, tt))))

parse_status-reply_example :
    parse_status (record {
      bytes =
          front_bytes 1500 16 0x1234 (replicate 16 0)
          ++ (slots_bytes (slots 300) ++ slots_bytes (slots 299));
      spare = 0 ∷ 0 ∷ [];
    })
    ≡ done (
      record {
        mtu = 1500;
        nresponsebuffer = 16;
        nextid = 0x1234;
        received = filled (slots 300);
        sent = filled (slots 299);
      },
      none,
    )
parse_status-reply_example =
    parse_status-reply 1500 16 0x1234 (replicate 16 0) (0 ∷ 0 ∷ []) (slots 300) (slots 299)
      (omega arith) (omega arith) (omega arith) refl refl refl (slots-IsSlot 300 (omega arith))
      (slots-IsSlot 299 (omega arith))

new_packet_header-request_example :
    (length (new_resend_packet 0xabcd) ≡ 4)
    × (new_packet_header (new_resend_packet 0xabcd)
        ≡ (record { version = 2; pid = 0xabcd; ptype = resend; order = big_endian }, none))
    × (length new_status_packet ≡ 64)
    × (new_packet_header new_status_packet
        ≡ (record { version = 2; pid = 0; ptype = status; order = big_endian }, none))
    × (drop 4 new_status_packet ≡ replicate 60 0)
new_packet_header-request_example = new_packet_header-request 0xabcd (omega arith)
