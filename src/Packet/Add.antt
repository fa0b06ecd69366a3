-- ===== src/Packet/Add.antt =====
-- `packet.add`: one more transaction in a request packet.
pub mod Bounds
pub mod Wire
use ipbus.Common.{
  ℕ, zero, suc, ◌+◌, ◌-◌, ◌*◌, ◌/◌, ◌%◌, ◌^◌, Bool, true, false, not, ◌||◌, List, [], ◌∷◌, ◌++◌,
  Option, none, some, length, take, drop, replicate, ltb, ◌==◌, if◌then◌else◌, u8, u16,
}
use ipbus.Outcome.{Outcome, done, panic, stuck, ◌>>=◌}
use ipbus.Protocol.{
  ByteOrder, Error, read, write, readnoninc, writenoninc, rmwbits, rmwsum, read_with_input,
  write_length, rmwbits_length, rmwsum_length, read_no_space, write_no_space, rmwbits_no_space,
  rmwsum_no_space,
}
use ipbus.TransactionHeader.{TransactionHeader, encode}
use ipbus.Uint32.{put_uint32}
use ipbus.Packet.{Packet, Transaction, space, add64}

-- What the switch decides: an error, or the words by which the request and the reply grow.
pub data Room : Type 0 where
  refuse : Error → Room
  grow : ℕ → ℕ → Room

abbrev pub is_read : ℕ → Bool
is_read tid = tid == read || tid == readnoninc

abbrev pub is_write : ℕ → Bool
is_write tid = tid == write || tid == writenoninc

-- The switch, on the space that is left. `words` is a uint8, and so is `words+1` of the first case.
unfoldable pub reserve : ℕ → ℕ → Transaction → Room
reserve reqspace respspace trans =
    if is_read tid
    then if ltb 0 (length trans.input)
      then refuse read_with_input
      else if ltb reqspace 2 || ltb respspace (u8 (words + 1))
      then refuse read_no_space
      else grow 2 (words + 1)
    else if is_write tid
    then if not (length trans.input == words)
      then refuse write_length
      else if ltb reqspace (words + 2) || ltb respspace 1
      then refuse write_no_space
      else grow (words + 2) 1
    else if tid == rmwbits
    then if not (length trans.input == 2)
      then refuse rmwbits_length
      else if ltb reqspace 4 || ltb respspace 2
      then refuse rmwbits_no_space
      else grow 4 2
    else if tid == rmwsum
    then if not (length trans.input == 1)
      then refuse rmwsum_length
      else if ltb reqspace 3 || ltb respspace 2
      then refuse rmwsum_no_space
      else grow 3 2
    else grow 0 0
  where
    tid : ℕ
    tid = trans.outheader.tid

    words : ℕ
    words = trans.outheader.words

-- The loop over the input words from index `i` on, each put at its place in `buffer`.
unfoldable pub put_input : ByteOrder → List ℕ → ℕ → List ℕ → Outcome (List ℕ)
put_input order buffer i [] = done buffer
put_input order buffer i (val ∷ rest) = do
  tail ← put_uint32 order (drop ((i + 1) * 4) buffer) val
  put_input order (take ((i + 1) * 4) buffer ++ tail) (i + 1) rest

-- The bytes of the address and the input words.
unfoldable pub transaction_data : ByteOrder → Transaction → Outcome (List ℕ)
transaction_data order trans = do
  buffer ← put_uint32 order (replicate (4 * length trans.input + 4) 0) trans.addr
  put_input order buffer 0 trans.input

-- The transaction as it is stored: its id is its place in the packet.
abbrev pub numbered : Packet → Transaction → Transaction
numbered p trans = record trans {
  outheader = record (trans.outheader) { id = u16 (length p.transactions) };
}

-- What follows the switch. An error of `encode` is only printed.
unfoldable pub append_transaction : Packet → Transaction → Outcome Packet
append_transaction p trans = do
  let (transhead, _) = encode trans.outheader (replicate 4 0) p.header.order
  bytes ← transaction_data p.header.order trans
  done (record p {
    request_bytes = (p.request_bytes ++ transhead) ++ bytes;
    transactions = p.transactions ++ (trans ∷ []);
  })

add_to : Packet → Transaction → Room → Outcome (Packet × Option Error)
add_to p trans (refuse e) = done (p, some e)
add_to p trans (grow req resp) = do
  p' ←
      append_transaction (record p { reqlen = add64 p.reqlen req; resplen = add64 p.resplen resp })
        (numbered p trans)
  done (p', none)

unfoldable pub add : Packet → Transaction → Outcome (Packet × Option Error)
unfolding add_to
add p trans =
    let (reqspace, respspace) = space p in add_to p trans (reserve reqspace respspace trans)
