-- ===== src/TransactionHeader.antt =====
-- `transactionheader` of ipbus.go: the first word of a transaction and of its reply.
pub mod RoundTrip
mod Tests
use ipbus.Common.{
  ℕ, ◌*◌, ◌/◌, ◌%◌, ◌^◌, List, length, get_or, Option, none, some, ltb, if◌then◌else◌, bit_and,
  bit_or, u8, u16, ◌<<<◌, ◌>>>◌,
}
use ipbus.Protocol.{
  ByteOrder, big_endian, little_endian, unset, Error, transaction_header_short,
  transaction_header_no_order,
}
use ipbus.PacketHeader.{byte_at, write4}

pub record TransactionHeader : Type 0 where
  pub version : ℕ
  pub id : ℕ
  pub words : ℕ
  pub tid : ℕ
  pub code : ℕ

-- `transactionheader{}`
abbrev pub zero_header : TransactionHeader
zero_header = record { version = 0; id = 0; words = 0; tid = 0; code = 0 }

-- The fields of a header whose bytes are, from the highest, `a b c d`. `id` is set in two steps.
abbrev pub header_of : ℕ → ℕ → ℕ → ℕ → TransactionHeader
header_of a b c d = record {
  version = a >>> 4;
  id = bit_or b (u16 (bit_and a 0x0f <<< 8));
  words = c;
  tid = bit_and d 0xf0 >>> 4;
  code = bit_and d 0x0f;
}

decode_word : TransactionHeader → ByteOrder → List ℕ → TransactionHeader × Option Error
decode_word th big_endian s =
    (header_of (byte_at s 0) (byte_at s 1) (byte_at s 2) (byte_at s 3), none)
decode_word th little_endian s =
    (header_of (byte_at s 3) (byte_at s 2) (byte_at s 1) (byte_at s 0), none)
decode_word th unset s = (th, some transaction_header_no_order)

-- The method changes its receiver only where it returns nil.
unfoldable pub decode : TransactionHeader → List ℕ → ByteOrder → TransactionHeader × Option Error
unfolding decode_word
decode th bytes order =
    if ltb (length bytes) 4 then (th, some transaction_header_short) else decode_word th order bytes

unfoldable pub new_transaction_header : List ℕ → ByteOrder → TransactionHeader × Option Error
unfolding decode
new_transaction_header bytes order = decode zero_header bytes order

-- The bytes that hold the version with the top of the id, and the type with the code.
abbrev pub top_byte : TransactionHeader → ℕ
top_byte th = bit_or (u8 (th.version <<< 4)) (u8 (bit_and th.id 0x0f00 >>> 8))

abbrev pub type_byte : TransactionHeader → ℕ
type_byte th = bit_or (u8 (th.tid <<< 4)) th.code

encode_word : TransactionHeader → ByteOrder → List ℕ → List ℕ × Option Error
encode_word th big_endian s =
    (write4 s (top_byte th) (u8 (bit_and th.id 0xff)) th.words (type_byte th), none)
encode_word th little_endian s =
    (write4 s (type_byte th) th.words (u8 (bit_and th.id 0xff)) (top_byte th), none)
encode_word th unset s = (s, some transaction_header_no_order)

-- The bytes after the call, and the error.
unfoldable pub encode : TransactionHeader → List ℕ → ByteOrder → List ℕ × Option Error
unfolding encode_word
encode th bytes order =
    if ltb (length bytes) 4
    then (bytes, some transaction_header_short)
    else encode_word th order bytes
