-- ===== src/PacketHeader/Tests.antt =====
-- Runs of the packet header's methods, and the theorems at concrete headers.
use ipbus.Common.{ℕ, ◌≡◌, ◌≢◌, ◌↔◌, refl, List, [], ◌∷◌, none, some, drop, length, arith}
use ipbus.Protocol.{little_endian, unset, packet_header_short, packet_header_invalid}
use ipbus.PacketHeader.{PacketHeader, zero_header, decode, encode, byteorder}
use ipbus.PacketHeader.RoundTrip.{
  IsValid, decode-encode_packet_header, encode-decode_packet_header, byteorder-decode,
}

abbrev resend_header : PacketHeader
resend_header = record { version = 2; pid = 0x1234; ptype = 2; order = little_endian }

abbrev wire_bytes : List ℕ
wire_bytes = 0xf2 ∷ 0x34 ∷ 0x12 ∷ 0x20 ∷ 7 ∷ []

encode_little : encode resend_header (0 ∷ 0 ∷ 0 ∷ 0 ∷ 7 ∷ []) ≡ (wire_bytes, none)
unfolding encode
encode_little = refl

decode_little : decode zero_header wire_bytes ≡ (resend_header, none)
unfolding decode
decode_little = refl

decode_refusals :
    (decode resend_header (0x20 ∷ []) ≡ (resend_header, some packet_header_short))
    × (decode resend_header (0x20 ∷ 0 ∷ 0 ∷ 0x0f ∷ [])
        ≡ (resend_header, some packet_header_invalid))
unfolding decode
decode_refusals = (refl, refl)

order-ne-unset : little_endian ≢ unset
order-ne-unset e = cc

resend_header-IsValid : IsValid resend_header
resend_header-IsValid = record {
  version_is = refl;
  pid_fits = omega arith;
  ptype_fits = omega arith;
  has_order = order-ne-unset;
}

decode-encode_packet_header_example :
    let (written, e) = encode resend_header (9 ∷ 9 ∷ 9 ∷ 9 ∷ 7 ∷ []) in
    (e ≡ none)
    × (decode zero_header written ≡ (resend_header, none))
    × (drop 4 written ≡ 7 ∷ [])
    × (length written ≡ 5)
decode-encode_packet_header_example =
    decode-encode_packet_header zero_header resend_header (9 ∷ 9 ∷ 9 ∷ 9 ∷ 7 ∷ [])
      resend_header-IsValid (omega arith)

encode-decode_packet_header_example :
    IsValid resend_header × (encode resend_header wire_bytes ≡ (wire_bytes, none))
encode-decode_packet_header_example =
    encode-decode_packet_header zero_header wire_bytes (omega arith) decode_little

byteorder-decode_example :
    (byteorder wire_bytes ≡ (little_endian, none))
    ↔ ((decode zero_header wire_bytes).1 ≡ none)
      × ((decode zero_header wire_bytes).0.order ≡ little_endian)
byteorder-decode_example = byteorder-decode zero_header wire_bytes little_endian
