-- ===== src/TransactionHeader/RoundTrip.antt =====
-- `encode` and `decode` of a transaction header are inverse.
use ipbus.Common.{
  ℕ, ◌+◌, ◌*◌, ◌/◌, ◌%◌, ◌≤◌, ◌<◌, ◌≡◌, ◌≢◌, ap, refl, List, [], ◌∷◌, length, drop, replicate, ◌++◌,
  sym, ◌∙◌, drop-append, All, none, some, arith, IsByte, IsU16, bit_and,
}
use native.Mathlib.Nat.{mod-eq_of_lt}
use ipbus.Bits.Bytes.{low_nibble, high_nibble, low_byte, third_nibble, join_nibbles, join_high}
use ipbus.Protocol.{ByteOrder, big_endian, little_endian, unset, transaction_header_short}
use ipbus.TransactionHeader.{
  TransactionHeader, decode, decode_word, encode, encode_word, header_of, top_byte, type_byte,
  new_transaction_header, zero_header,
}

-- The ranges of the Go types, and the four bits that the wire format has for three of the fields.
pub record IsValid (th : TransactionHeader) : Type 0 where
  pub version_fits : th.version < 16
  pub id_fits : IsU16 th.id
  pub words_fits : IsByte th.words
  pub tid_fits : th.tid < 16
  pub code_fits : th.code < 16

-- The id that the twelve bits of the wire format hold.
abbrev pub wire_id : TransactionHeader → TransactionHeader
wire_id th = record th { id = th.id % 4096 }

header_of-bytes :
    (th : TransactionHeader)
    → IsValid th
    → header_of (top_byte th) (th.id % 256) th.words (type_byte th) ≡ wire_id th
header_of-bytes th v = ground (
  arith,
  third_nibble th.id,
  join_nibbles th.version (th.id / 256 % 16),
  join_nibbles th.tid th.code,
  low_nibble (th.version * 16 + th.id / 256 % 16),
  low_nibble (th.tid * 16 + th.code),
  high_nibble (th.tid * 16 + th.code),
  join_high (th.id / 256 % 16) (th.id % 256),
)

header_of_lem :
    (a b c d : ℕ)
    → IsByte a
    → IsByte b
    → IsByte c
    → IsByte d
    → let th = header_of a b c d in
      IsValid th
      × (th.id < 4096)
      × (top_byte th ≡ a)
      × (bit_and th.id 0xff % 256 ≡ b)
      × (type_byte th ≡ d)
header_of_lem a b c d ha hb hc hd = ground (
  arith,
  low_nibble a,
  join_high (a % 16) b,
  low_nibble d,
  high_nibble d,
  third_nibble (a % 16 * 256 + b),
  low_byte (a % 16 * 256 + b),
  join_nibbles (a / 16) (a % 16),
  join_nibbles (d / 16) (d % 16),
)

-- A header is written in either byte order into any slice of four bytes or more, and is read back
-- from there whatever the receiver held. The wire has twelve bits for the id, so what is read back
-- has the id modulo 4096; the bytes behind the first four are unchanged.
pub decode-encode_transaction_header :
    (z th : TransactionHeader) (bytes : List ℕ) (o : ByteOrder)
    → IsValid th
    → o ≢ unset
    → 4 ≤ length bytes
    → let (written, e) = encode th bytes o in
      (e ≡ none)
      × (decode z written o ≡ (record th { id = th.id % 4096 }, none))
      × (drop 4 written ≡ drop 4 bytes)
      × (length written ≡ length bytes)
unfolding encode encode_word decode
decode-encode_transaction_header z th [] o v p l = absurd (omega arith)
decode-encode_transaction_header z th (a ∷ []) o v p l = absurd (omega arith)
decode-encode_transaction_header z th (a ∷ b ∷ []) o v p l = absurd (omega arith)
decode-encode_transaction_header z th (a ∷ b ∷ c ∷ []) o v p l = absurd (omega arith)
decode-encode_transaction_header z th (a ∷ b ∷ c ∷ d ∷ rest) big_endian v p l =
    ground (arith, header_of-bytes th v, low_byte th.id)
decode-encode_transaction_header z th (a ∷ b ∷ c ∷ d ∷ rest) little_endian v p l =
    ground (arith, header_of-bytes th v, low_byte th.id)
decode-encode_transaction_header z th (a ∷ b ∷ c ∷ d ∷ rest) unset v p l = absurd (p refl)

-- Every word of four bytes is a transaction header in either byte order: `decode` accepts it, what
-- it reads is valid with an id below 4096, and writing that over the slice gives the same bytes.
pub encode-decode_transaction_header :
    (z : TransactionHeader) (bytes : List ℕ) (o : ByteOrder)
    → All IsByte bytes
    → o ≢ unset
    → 4 ≤ length bytes
    → let (th, e) = decode z bytes o in
      (e ≡ none) × IsValid th × (th.id < 4096) × (encode th bytes o ≡ (bytes, none))
unfolding encode encode_word decode
encode-decode_transaction_header z [] o v p l = absurd (omega arith)
encode-decode_transaction_header z (a ∷ []) o v p l = absurd (omega arith)
encode-decode_transaction_header z (a ∷ b ∷ []) o v p l = absurd (omega arith)
encode-decode_transaction_header z (a ∷ b ∷ c ∷ []) o v p l = absurd (omega arith)
encode-decode_transaction_header z (a ∷ b ∷ c ∷ d ∷ rest) big_endian v p l =
    ground (arith, header_of_lem a b c d)
encode-decode_transaction_header z (a ∷ b ∷ c ∷ d ∷ rest) little_endian v p l =
    ground (arith, header_of_lem d c b a)
encode-decode_transaction_header z (a ∷ b ∷ c ∷ d ∷ rest) unset v p l = absurd (p refl)

-- `encode` keeps the length of the slice, also where it returns an error.
pub length-encode :
    (th : TransactionHeader) (bytes : List ℕ) (o : ByteOrder)
    → length (encode th bytes o).0 ≡ length bytes
unfolding encode encode_word
length-encode th [] o = refl
length-encode th (a ∷ []) o = refl
length-encode th (a ∷ b ∷ []) o = refl
length-encode th (a ∷ b ∷ c ∷ []) o = refl
length-encode th (a ∷ b ∷ c ∷ d ∷ rest) big_endian = ground arith
length-encode th (a ∷ b ∷ c ∷ d ∷ rest) little_endian = ground arith
length-encode th (a ∷ b ∷ c ∷ d ∷ rest) unset = ground arith

-- A header of four bytes or more is read in either byte order; a shorter one is an error.
pub new_header_long :
    (bytes : List ℕ) (o : ByteOrder)
    → o ≢ unset
    → 4 ≤ length bytes
    → (new_transaction_header bytes o).1 ≡ none
unfolding new_transaction_header decode_word
new_header_long bytes big_endian p l = ground arith
new_header_long bytes little_endian p l = ground arith
new_header_long bytes unset p l = absurd (p refl)

pub new_header_short :
    (bytes : List ℕ) (o : ByteOrder)
    → length bytes < 4
    → new_transaction_header bytes o ≡ (zero_header, some transaction_header_short)
unfolding new_transaction_header
new_header_short bytes o l = ground arith

encode-append :
    (th : TransactionHeader) (rest : List ℕ) (o : ByteOrder)
    → (encode th (0 ∷ 0 ∷ 0 ∷ 0 ∷ rest) o).0 ≡ (encode th (replicate 4 0) o).0 ++ rest
unfolding encode encode_word
encode-append th rest big_endian = ground arith
encode-append th rest little_endian = ground arith
encode-append th rest unset = ground arith

-- A header that is written into four fresh bytes is read from the front of a longer slice.
pub new_header-encode :
    (th : TransactionHeader) (rest : List ℕ) (o : ByteOrder)
    → IsValid th
    → o ≢ unset
    → th.id < 4096
    → new_transaction_header ((encode th (replicate 4 0) o).0 ++ rest) o ≡ (th, none)
unfolding new_transaction_header
new_header-encode th rest o v p small =
    let (_, read, _, _) =
      decode-encode_transaction_header zero_header th (0 ∷ 0 ∷ 0 ∷ 0 ∷ rest) o v p (omega arith) in
    ap (λ s. decode zero_header s o) (sym (encode-append th rest o))
    ∙ read
    ∙ ap (λ n. (record th { id = n }, none)) (mod-eq_of_lt small)

pub drop-encode :
    (th : TransactionHeader) (rest : List ℕ) (o : ByteOrder)
    → drop 4 ((encode th (replicate 4 0) o).0 ++ rest) ≡ rest
drop-encode th rest o =
    drop-append (encode th (replicate 4 0) o).0 rest (length-encode th (replicate 4 0) o)
