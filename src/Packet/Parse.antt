-- ===== src/Packet/Parse.antt =====
-- `packet.parse`: the reply to a packet as responses, in the order of their arrival. A slice is the
-- list of its bytes. Go lets a slice expression reach up to the capacity, `data[:n]`; where that
-- goes past the length the `data[n:]` behind it panics, and so does `split` here.
pub mod Ends
pub mod Answers
pub mod Replies
pub mod Responses
use ipbus.Common.{
  ℕ, zero, suc, ◌+◌, ◌-◌, ◌*◌, Bool, true, false, ◌||◌, List, [], ◌∷◌, ◌++◌, Option, none, some,
  length, take, drop, replicate, get_elem?, ltb, ◌==◌, if◌then◌else◌,
}
use ipbus.Outcome.{Outcome, done, panic, stuck, ◌>>=◌, or_panic}
use ipbus.Protocol.{
  ByteOrder, Error, success, control, status, resend, rmwbits, rmwsum, ipbus_error,
  insufficient_bytes, resend_received, invalid_packet_type,
}
use ipbus.PacketHeader.{PacketHeader, new_packet_header}
use ipbus.TransactionHeader.{TransactionHeader, new_transaction_header}
use ipbus.Uint32.{bytes2uint32s}
use ipbus.Packet.{Packet, Transaction, Response}
use ipbus.Packet.Add.{is_read, is_write}

-- `data[:n]` and `data[n:]`
unfoldable pub split : ℕ → List ℕ → Outcome (List ℕ × List ℕ)
split n bytes = if ltb (length bytes) n then panic else done (take n bytes, drop n bytes)

-- The first `n` bytes as the data of a response, of the kind that the transaction asked for.
take_data : ByteOrder → Bool → ℕ → ℕ → List ℕ → Outcome (Response × List ℕ)
take_data order true code n bytes = do
  (front, rest) ← split n bytes
  done (record { err = none; code = code; data_u32 = none; data_b = some front }, rest)
take_data order false code n bytes = do
  (front, rest) ← split n bytes
  us ← bytes2uint32s front order
  done (record { err = none; code = code; data_u32 = some us; data_b = none }, rest)

no_data : Bool → ℕ → Response
no_data true code = record { err = none; code = code; data_u32 = none; data_b = some [] }
no_data false code = record { err = none; code = code; data_u32 = some []; data_b = none }

-- The case of a `Success` code, on what follows the header.
unfoldable pub read_success :
    ByteOrder → Transaction → TransactionHeader → List ℕ → Outcome (Response × List ℕ)
unfolding take_data no_data
read_success order trans th bytes =
    if is_read th.tid
    then take_data order trans.byteslice th.code (th.words * 4) bytes
    else if is_write th.tid
    then done (no_data trans.byteslice th.code, bytes)
    else if th.tid == rmwbits || th.tid == rmwsum
    then take_data order trans.byteslice th.code 4 bytes
    else done (record { err = none; code = th.code; data_u32 = none; data_b = none }, bytes)

-- What follows the choice of the transaction: the response and the bytes that are left. Where the
-- header was not read, nothing is taken from the bytes.
read_response :
    ByteOrder
    → Transaction
    → TransactionHeader
    → Option Error
    → List ℕ
    → Outcome (Response × List ℕ)
read_response order trans th (some e) bytes =
    done (record { err = some e; code = th.code; data_u32 = none; data_b = none }, bytes)
read_response order trans th none bytes =
    if th.code == success
    then read_success order trans th (drop 4 bytes)
    else done (
      record { err = some (ipbus_error th.code); code = th.code; data_u32 = none; data_b = none },
      drop 4 bytes,
    )

-- The transaction that the header names; the source panics where there is none.
find_transaction : List Transaction → ℕ → Outcome Transaction
find_transaction trans tid = or_panic (get_elem? trans tid)

-- One round of the loop.
unfoldable pub parse_reply : ByteOrder → List Transaction → List ℕ → Outcome (Response × List ℕ)
unfolding read_response find_transaction
parse_reply order trans bytes = do
  let (th, e) = new_transaction_header bytes order
  t ← find_transaction trans th.id
  read_response order t th e bytes

-- `for len(data) > 0`, on fuel.
unfoldable pub parse_loop :
    ℕ → ByteOrder → List Transaction → List ℕ → List Response → Outcome (List Response)
parse_loop fuel order trans [] replies = done replies
parse_loop zero order trans (b ∷ bs) replies = stuck
parse_loop (suc fuel) order trans (b ∷ bs) replies = do
  (resp, rest) ← parse_reply order trans (b ∷ bs)
  parse_loop fuel order trans rest (replies ++ (resp ∷ []))

-- `Response{err, 0xe, nil, nil}`
abbrev pub lost : Error → Response
lost e = record { err = some e; code = 0xe; data_u32 = none; data_b = none }

-- The loop that makes up the responses that did not arrive.
abbrev pub fill_replies : List Transaction → List Response → List Response
fill_replies trans replies =
    replies ++ replicate (length trans - length replies) (lost insufficient_bytes)

-- The branch of a control packet.
unfoldable pub parse_control : ℕ → Packet → ByteOrder → List ℕ → Outcome (Packet × Option Error)
parse_control fuel p order bytes = do
  replies ← parse_loop fuel order p.transactions bytes p.replies
  done (record p { replies = fill_replies p.transactions replies }, none)

parse_typed : ℕ → Packet → PacketHeader → Option Error → List ℕ → Outcome (Packet × Option Error)
parse_typed fuel p packheader (some e) bytes =
    done (record p { replies = p.replies ++ replicate (length p.transactions) (lost e) }, some e)
parse_typed fuel p packheader none bytes =
    if packheader.ptype == control
    then parse_control fuel p packheader.order (drop 4 bytes)
    else if packheader.ptype == status
    then done (p, none)
    else if packheader.ptype == resend
    then done (p, some resend_received)
    else done (p, some (invalid_packet_type packheader.ptype))

-- The whole method, with the fuel of its loop.
unfoldable pub parse_within : ℕ → Packet → List ℕ → Outcome (Packet × Option Error)
unfolding parse_typed
parse_within fuel p bytes =
    let (packheader, e) = new_packet_header bytes in parse_typed fuel p packheader e bytes

-- A round that ends takes four bytes at least, unless the header was too short to read; see `Ends`.
unfoldable pub parse : Packet → List ℕ → Outcome (Packet × Option Error)
unfolding parse_within
parse p bytes = parse_within (length bytes) p bytes
