-- ===== src/TransactionHeader/Tests.antt =====
-- Runs of the transaction header's methods, and the theorems at concrete headers.
use ipbus.Common.{◌≡◌, ◌≢◌, ◌<◌, refl, [], ◌∷◌, none, drop, length, arith}
use ipbus.Protocol.{big_endian, little_endian, unset}
use ipbus.TransactionHeader.{TransactionHeader, zero_header, decode, encode}
use ipbus.TransactionHeader.RoundTrip.{
  IsValid, decode-encode_transaction_header, encode-decode_transaction_header,
}

abbrev rmw_header : TransactionHeader
rmw_header = record { version = 2; id = 0x123; words = 1; tid = 4; code = 0xf }

encode_both :
    (encode rmw_header (0 ∷ 0 ∷ 0 ∷ 0 ∷ []) big_endian ≡ (0x21 ∷ 0x23 ∷ 1 ∷ 0x4f ∷ [], none))
    × (encode rmw_header (0 ∷ 0 ∷ 0 ∷ 0 ∷ []) little_endian ≡ (0x4f ∷ 1 ∷ 0x23 ∷ 0x21 ∷ [], none))
unfolding encode
encode_both = (refl, refl)

decode_big : decode zero_header (0x21 ∷ 0x23 ∷ 1 ∷ 0x4f ∷ []) big_endian ≡ (rmw_header, none)
unfolding decode
decode_big = refl

big-ne-unset : big_endian ≢ unset
big-ne-unset e = cc

decode-encode_transaction_header_example :
    let (written, e) = encode rmw_header (0 ∷ 0 ∷ 0 ∷ 0 ∷ 5 ∷ []) big_endian in
    (e ≡ none)
    × (decode zero_header written big_endian ≡ (rmw_header, none))
    × (drop 4 written ≡ 5 ∷ [])
    × (length written ≡ 5)
decode-encode_transaction_header_example =
    decode-encode_transaction_header zero_header rmw_header (0 ∷ 0 ∷ 0 ∷ 0 ∷ 5 ∷ []) big_endian
      (omega arith) big-ne-unset (omega arith)

encode-decode_transaction_header_example :
    let (th, e) = decode zero_header (0x21 ∷ 0x23 ∷ 1 ∷ 0x4f ∷ []) big_endian in
    (e ≡ none)
    × IsValid th
    × (th.id < 4096)
    × (encode th (0x21 ∷ 0x23 ∷ 1 ∷ 0x4f ∷ []) big_endian ≡ (0x21 ∷ 0x23 ∷ 1 ∷ 0x4f ∷ [], none))
encode-decode_transaction_header_example =
    encode-decode_transaction_header zero_header (0x21 ∷ 0x23 ∷ 1 ∷ 0x4f ∷ []) big_endian
      (omega arith) big-ne-unset (omega arith)
