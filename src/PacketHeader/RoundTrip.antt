-- ===== src/PacketHeader/RoundTrip.antt =====
-- `encode` and `decode` of a packet header are inverse, and `byteorder` agrees with `decode`.
use ipbus.Common.{
  ℕ, ◌+◌, ◌*◌, ◌/◌, ◌%◌, ◌≤◌, ◌<◌, ◌≡◌, ◌≢◌, ◌↔◌, refl, List, [], ◌∷◌, ◌++◌, length, replicate,
  drop, All, none, arith, IsByte, IsU16,
}
use ipbus.Bits.Bytes.{low_nibble, high_nibble, low_byte, high_byte, join_bytes, set_high_nibble}
use ipbus.Protocol.{ByteOrder, big_endian, little_endian, unset}
use ipbus.PacketHeader.{
  PacketHeader, decode, encode, encode_word, byteorder, new_packet_header, zero_header,
}

pub record IsValid (h : PacketHeader) : Type 0 where
  pub version_is : h.version ≡ 2
  pub pid_fits : IsU16 h.pid
  pub ptype_fits : h.ptype < 16
  pub has_order : h.order ≢ unset

decode-encode_word :
    (p h : PacketHeader) (o : ByteOrder) (a b c d : ℕ) (rest : List ℕ)
    → IsValid h
    → h.order ≡ o
    → decode p (encode_word h o (a ∷ b ∷ c ∷ d ∷ rest)).0 ≡ (h, none)
unfolding decode encode_word
decode-encode_word p h big_endian a b c d rest v e = ground (
  arith,
  low_byte h.pid,
  high_byte h.pid,
  set_high_nibble h.ptype,
  high_nibble (240 + h.ptype),
  low_nibble (240 + h.ptype),
  join_bytes (h.pid / 256) (h.pid % 256),
)
decode-encode_word p h little_endian a b c d rest v e = ground (
  arith,
  low_byte h.pid,
  high_byte h.pid,
  set_high_nibble h.ptype,
  high_nibble (240 + h.ptype),
  low_nibble (240 + h.ptype),
  join_bytes (h.pid / 256) (h.pid % 256),
)
decode-encode_word p h unset a b c d rest v e = absurd (v.has_order e)

-- A header with the protocol's version, a 16-bit id, a 4-bit type and a byte order is written
-- into any slice of four bytes or more without an error. `decode` reads the same header back from
-- the slice, whatever its receiver held, and the bytes behind the first four are unchanged.
pub decode-encode_packet_header :
    (p h : PacketHeader) (bytes : List ℕ)
    → IsValid h
    → 4 ≤ length bytes
    → let (written, e) = encode h bytes in
      (e ≡ none)
      × (decode p written ≡ (h, none))
      × (drop 4 written ≡ drop 4 bytes)
      × (length written ≡ length bytes)
unfolding encode encode_word
decode-encode_packet_header p h [] v l = absurd (omega arith)
decode-encode_packet_header p h (a ∷ []) v l = absurd (omega arith)
decode-encode_packet_header p h (a ∷ b ∷ []) v l = absurd (omega arith)
decode-encode_packet_header p h (a ∷ b ∷ c ∷ []) v l = absurd (omega arith)
decode-encode_packet_header p h (a ∷ b ∷ c ∷ d ∷ rest) v l =
    ground (arith, decode-encode_word p h h.order a b c d rest v refl)

-- Where `decode` accepts a slice of bytes, the header that it sets is valid, and writing that
-- header over the slice gives the same bytes: the first word of a packet has one header.
pub encode-decode_packet_header :
    (p : PacketHeader) (bytes : List ℕ) {h : PacketHeader}
    → All IsByte bytes
    → decode p bytes ≡ (h, none)
    → IsValid h × (encode h bytes ≡ (bytes, none))
unfolding encode encode_word decode
encode-decode_packet_header p [] v e = ground arith
encode-decode_packet_header p (a ∷ []) v e = ground arith
encode-decode_packet_header p (a ∷ b ∷ []) v e = ground arith
encode-decode_packet_header p (a ∷ b ∷ c ∷ []) v e = ground arith
encode-decode_packet_header p (a ∷ b ∷ c ∷ d ∷ rest) v e = ground (
  arith,
  low_nibble a,
  low_nibble d,
  high_nibble a,
  high_nibble d,
  join_bytes b c,
  join_bytes c b,
  low_byte (b * 256 + c),
  low_byte (c * 256 + b),
  high_byte (b * 256 + c),
  high_byte (c * 256 + b),
  set_high_nibble (a % 16),
  set_high_nibble (d % 16),
)

-- `byteorder` finds an order exactly where `decode` accepts the header, and it is the order that
-- `decode` sets; both refuse a slice that is shorter than four bytes.
pub byteorder-decode :
    (p : PacketHeader) (bytes : List ℕ) (o : ByteOrder)
    → (byteorder bytes ≡ (o, none)) ↔ ((decode p bytes).1 ≡ none) × ((decode p bytes).0.order ≡ o)
unfolding byteorder decode
byteorder-decode p bytes o = ground arith

-- A header that is written into four fresh bytes is read from the front of a longer slice.
pub new_packet_header-encode :
    (h : PacketHeader) (rest : List ℕ)
    → IsValid h
    → (new_packet_header ((encode h (replicate 4 0)).0 ++ rest) ≡ (h, none))
      × (drop 4 ((encode h (replicate 4 0)).0 ++ rest) ≡ rest)
unfolding new_packet_header encode encode_word
new_packet_header-encode h rest v = by_order h.order refl
  where
    by_order :
        (o : ByteOrder)
        → h.order ≡ o
        → (decode zero_header ((encode_word h h.order (0 ∷ 0 ∷ 0 ∷ 0 ∷ [])).0 ++ rest) ≡ (h, none))
          × (drop 4 ((encode_word h h.order (0 ∷ 0 ∷ 0 ∷ 0 ∷ [])).0 ++ rest) ≡ rest)
    by_order big_endian e =
        ground (arith, decode-encode_word zero_header h big_endian 0 0 0 0 rest v e)
    by_order little_endian e =
        ground (arith, decode-encode_word zero_header h little_endian 0 0 0 0 rest v e)
    by_order unset e = absurd (v.has_order e)
