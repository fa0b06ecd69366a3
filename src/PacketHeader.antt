-- ===== src/PacketHeader.antt =====
-- `packetheader` of ipbus.go and `byteorder` of transaction.go: the first word of a packet.
-- A byte slice is the list of its bytes; writing through it returns the new list.
pub mod RoundTrip
mod Tests
use ipbus.Common.{
  ℕ, ◌+◌, ◌*◌, ◌/◌, ◌%◌, ◌^◌, List, length, get_or, set, Bool, Option, none, some, ltb, ◌==◌, ◌&&◌,
  if◌then◌else◌, bit_and, bit_or, u8, u16, ◌<<<◌, ◌>>>◌,
}
use ipbus.Protocol.{
  protocolversion, ByteOrder, big_endian, little_endian, unset, Error, packet_header_short,
  packet_header_invalid, packet_header_no_order, byteorder_short, byteorder_unknown,
}

pub record PacketHeader : Type 0 where
  pub version : ℕ
  pub pid : ℕ
  pub ptype : ℕ
  pub order : ByteOrder

-- `packetheader{}`
abbrev pub zero_header : PacketHeader
zero_header = record { version = 0; pid = 0; ptype = 0; order = unset }

-- `uint8(protocolversion) << 4`
abbrev pub version_byte : ℕ
version_byte = u8 (u8 protocolversion <<< 4)

abbrev pub boq : ℕ
boq = 0xf0

-- `data[i]`, read only below the length that the callers check first.
abbrev pub byte_at : List ℕ → ℕ → ℕ
byte_at bytes i = get_or bytes i 0

-- The two tests on the outer bytes of a header word.
abbrev pub marks : ℕ → ℕ → Bool
marks first last = first == version_byte && bit_and last boq == boq

-- The method changes its receiver only where it returns nil.
unfoldable pub decode : PacketHeader → List ℕ → PacketHeader × Option Error
decode p bytes =
    if ltb (length bytes) 4
    then (p, some packet_header_short)
    else if marks (byte_at bytes 0) (byte_at bytes 3)
    then (
      record {
        version = u8 protocolversion;
        pid = bit_or (u16 (byte_at bytes 1 <<< 8)) (byte_at bytes 2);
        ptype = bit_and (byte_at bytes 3) 0x0f;
        order = big_endian;
      },
      none,
    )
    else if marks (byte_at bytes 3) (byte_at bytes 0)
    then (
      record {
        version = u8 protocolversion;
        pid = bit_or (u16 (byte_at bytes 2 <<< 8)) (byte_at bytes 1);
        ptype = bit_and (byte_at bytes 0) 0x0f;
        order = little_endian;
      },
      none,
    )
    else (p, some packet_header_invalid)

unfoldable pub new_packet_header : List ℕ → PacketHeader × Option Error
unfolding decode
new_packet_header bytes = decode zero_header bytes

abbrev pub write4 : List ℕ → ℕ → ℕ → ℕ → ℕ → List ℕ
write4 bytes a b c d = set (set (set (set bytes 0 a) 1 b) 2 c) 3 d

encode_word : PacketHeader → ByteOrder → List ℕ → List ℕ × Option Error
encode_word p big_endian bytes = (
  write4 bytes (u8 (p.version <<< 4)) (u8 (bit_and p.pid 0xff00 >>> 8)) (u8 (bit_and p.pid 0x00ff))
      (bit_or 0xf0 p.ptype),
  none,
)
encode_word p little_endian bytes = (
  write4 bytes (bit_or 0xf0 p.ptype) (u8 (bit_and p.pid 0x00ff)) (u8 (bit_and p.pid 0xff00 >>> 8))
      (u8 (p.version <<< 4)),
  none,
)
encode_word p unset bytes = (bytes, some packet_header_no_order)

-- The bytes after the call, and the error.
unfoldable pub encode : PacketHeader → List ℕ → List ℕ × Option Error
unfolding encode_word
encode p bytes =
    if ltb (length bytes) 4 then (bytes, some packet_header_short) else encode_word p p.order bytes

-- `byteorder`: the order alone; `unset` beside an error.
unfoldable pub byteorder : List ℕ → ByteOrder × Option Error
byteorder bytes =
    if ltb (length bytes) 4
    then (unset, some byteorder_short)
    else if marks (byte_at bytes 0) (byte_at bytes 3)
    then (big_endian, none)
    else if marks (byte_at bytes 3) (byte_at bytes 0)
    then (little_endian, none)
    else (unset, some byteorder_unknown)
