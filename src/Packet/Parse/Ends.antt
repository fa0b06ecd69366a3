-- ===== src/Packet/Parse/Ends.antt =====
-- Which replies the loop of `parse` gets to the end of.
use ipbus.Common.{
  ℕ, zero, suc, ◌+◌, ◌-◌, ◌*◌, ◌/◌, ◌%◌, ◌≤◌, ◌<◌, ◌≡◌, ◌≢◌, refl, Bool, true, false, ◌||◌, List,
  [], ◌∷◌, ◌++◌, Option, none, some, length, replicate, drop, length-drop, length-append,
  length-replicate, get_elem?, arith, ◌==◌,
}
use native.Mathlib.Decide.{dec_lt}
use ipbus.Outcome.{
  done, stuck, OrPanics, OrPanics-bind, OrPanics-if, OrPanics-map, bind-ne-done, never-bind,
  or_panic-OrPanics,
}
use ipbus.Protocol.{
  ByteOrder, big_endian, little_endian, unset, Error, control, success, rmwbits, rmwsum,
  transaction_header_short, insufficient_bytes,
}
use ipbus.PacketHeader.{new_packet_header}
use ipbus.TransactionHeader.{TransactionHeader, new_transaction_header}
use ipbus.TransactionHeader.RoundTrip.{new_header_long, new_header_short}
use ipbus.Uint32.{uint32, words_loop, bytes2uint32s}
use ipbus.Packet.{Packet, Transaction, Response}
use ipbus.Packet.Add.{is_read, is_write}
use ipbus.Packet.Parse.{
  split, take_data, read_success, read_response, find_transaction, parse_reply, parse_loop,
  parse_control, parse_within, parse, fill_replies, lost,
}

uint32-OrPanics : (order : ByteOrder) (bytes : List ℕ) → OrPanics (λ _. Unit) (uint32 order bytes)
unfolding uint32
uint32-OrPanics big_endian (a ∷ b ∷ c ∷ d ∷ rest) = tt
uint32-OrPanics little_endian (a ∷ b ∷ c ∷ d ∷ rest) = tt
uint32-OrPanics _ _ = tt

words_loop-OrPanics :
    (n : ℕ) (order : ByteOrder) (bytes us : List ℕ)
    → OrPanics (λ _. Unit) (words_loop n order bytes us)
unfolding words_loop
words_loop-OrPanics zero order bytes us = tt
words_loop-OrPanics (suc n) order bytes us =
    OrPanics-bind _ _ (uint32 order bytes) _ (uint32-OrPanics order bytes)
      (λ u _. words_loop-OrPanics n order (drop 4 bytes) (us ++ (u ∷ [])))

split-OrPanics :
    (n : ℕ) (bytes : List ℕ) → OrPanics (λ p. length bytes ≡ length p.1 + n) (split n bytes)
unfolding split
split-OrPanics n bytes = ground (arith, length-drop n bytes)

-- What is left after a round, with the number of words that the round took.
abbrev Left : ℕ → List ℕ → Response × List ℕ → Type 0
Left least bytes (r, rest) = (k : ℕ) × (least ≤ k) × (length bytes ≡ length rest + 4 * k)

take_data-OrPanics :
    (order : ByteOrder) (b : Bool) (code k : ℕ) (bytes : List ℕ) (n : ℕ)
    → n ≡ 4 * k
    → OrPanics (Left 0 bytes) (take_data order b code n bytes)
unfolding take_data bytes2uint32s
take_data-OrPanics order true code k bytes n e =
    OrPanics-bind _ _ (split n bytes) _ (split-OrPanics n bytes)
      (λ p h. (k, omega arith, omega arith))
take_data-OrPanics order false code k bytes n e =
    OrPanics-bind _ _ (split n bytes) _ (split-OrPanics n bytes) (λ p h.
      OrPanics-bind _ _ (words_loop (length p.0 / 4) order p.0 []) _
        (words_loop-OrPanics (length p.0 / 4) order p.0 []) (λ us _. (k, omega arith, omega arith)))

read_success-OrPanics :
    (order : ByteOrder) (t : Transaction) (th : TransactionHeader) (bytes : List ℕ)
    → OrPanics (Left 0 bytes) (read_success order t th bytes)
unfolding read_success
read_success-OrPanics order t th bytes =
    OrPanics-if _ (is_read th.tid) _ _
      (take_data-OrPanics order t.byteslice th.code th.words bytes (th.words * 4) (omega arith))
      (OrPanics-if _ (is_write th.tid) _ _ (0, omega arith, omega arith)
        (OrPanics-if _ (th.tid == rmwbits || th.tid == rmwsum) _ _
          (take_data-OrPanics order t.byteslice th.code 1 bytes 4 (omega arith))
          (0, omega arith, omega arith)))

Left-drop :
    (bytes : List ℕ) (p : Response × List ℕ)
    → 4 ≤ length bytes
    → Left 0 (drop 4 bytes) p
    → Left 1 bytes p
Left-drop bytes p h (k, _, e) = (suc k, omega arith, omega (arith, length-drop 4 bytes))

find-OrPanics : (ts : List Transaction) (i : ℕ) → OrPanics (λ _. Unit) (find_transaction ts i)
unfolding find_transaction
find-OrPanics ts i = or_panic-OrPanics (get_elem? ts i)

-- A round on four bytes or more takes one word at least.
parse_reply-OrPanics :
    (order : ByteOrder) (ts : List Transaction) (bytes : List ℕ)
    → order ≢ unset
    → 4 ≤ length bytes
    → OrPanics (Left 1 bytes) (parse_reply order ts bytes)
unfolding parse_reply
parse_reply-OrPanics order ts bytes known h =
    OrPanics-bind (λ _. Unit) (Left 1 bytes) (find_transaction ts th.id) _ (find-OrPanics ts th.id)
      (λ t _. rw (new_header_long bytes order known h) (body t))
  where
    th : TransactionHeader
    th = (new_transaction_header bytes order).0

    body : (t : Transaction) → OrPanics (Left 1 bytes) (read_response order t th none bytes)
    body t =
        OrPanics-if _ (th.code == success) _ _
          (OrPanics-map _ _ (read_success order t th (drop 4 bytes)) (λ p. Left-drop bytes p h)
            (read_success-OrPanics order t th (drop 4 bytes)))
          (1, omega arith, omega (arith, length-drop 4 bytes))

-- With a number of whole words and as much fuel as bytes the loop ends or panics.
parse_loop-OrPanics :
    (fuel : ℕ) (order : ByteOrder) (ts : List Transaction) (bytes : List ℕ)
    (replies : List Response)
    → order ≢ unset
    → length bytes % 4 ≡ 0
    → length bytes ≤ fuel
    → OrPanics (λ _. Unit) (parse_loop fuel order ts bytes replies)
unfolding parse_loop
parse_loop-OrPanics fuel order ts [] replies known w f = tt
parse_loop-OrPanics zero order ts (b ∷ bs) replies known w f = absurd (omega arith)
parse_loop-OrPanics (suc fuel) order ts (b ∷ bs) replies known w f =
    OrPanics-bind (Left 1 (b ∷ bs)) _ (parse_reply order ts (b ∷ bs)) _
      (parse_reply-OrPanics order ts (b ∷ bs) known (omega arith))
      (λ p l.
        parse_loop-OrPanics fuel order ts p.1 (replies ++ (p.0 ∷ [])) known
          (omega (arith, l.1, l.2)) (omega (arith, l.1, l.2)))

-- A round on bytes that are no whole number of words leaves such a number. With one to three bytes
-- left it takes nothing.
parse_reply_tail :
    (order : ByteOrder) (ts : List Transaction) (bytes : List ℕ)
    → order ≢ unset
    → length bytes % 4 ≢ 0
    → OrPanics (λ p. length p.1 % 4 ≢ 0) (parse_reply order ts bytes)
unfolding parse_reply
parse_reply_tail order ts bytes known w = elim (dec_lt (length bytes) 4) [
  | yes short ↦
      rw (new_header_short bytes order short)
        (OrPanics-bind (λ _. Unit) _ (find_transaction ts 0) _ (find-OrPanics ts 0) (λ t _. w))
  | no long ↦
      OrPanics-map (Left 1 bytes) _ (parse_reply order ts bytes)
        (λ p l. let (k, _, e) = l in omega arith)
        (parse_reply-OrPanics order ts bytes known (omega arith))
]

-- With fewer than four bytes left the round takes the first transaction and nothing else.
parse_reply_short :
    (order : ByteOrder) (t : Transaction) (ts : List Transaction) (bytes : List ℕ)
    → length bytes < 4
    → parse_reply order (t ∷ ts) bytes
      ≡ done (
        record { err = some transaction_header_short; code = 0; data_u32 = none; data_b = none },
        bytes,
      )
unfolding parse_reply
parse_reply_short order t ts bytes short = rw (new_header_short bytes order short)

parse_loop_tail :
    (fuel : ℕ) (order : ByteOrder) (ts : List Transaction) (bytes : List ℕ)
    (replies rs : List Response)
    → order ≢ unset
    → length bytes % 4 ≢ 0
    → parse_loop fuel order ts bytes replies ≢ done rs
unfolding parse_loop
parse_loop_tail fuel order ts [] replies rs known w = absurd (w refl)
parse_loop_tail zero order ts (b ∷ bs) replies rs known w = λ e. cc
parse_loop_tail (suc fuel) order ts (b ∷ bs) replies rs known w =
    bind-ne-done (λ p. length p.1 % 4 ≢ 0) (parse_reply order ts (b ∷ bs)) _ rs
      (parse_reply_tail order ts (b ∷ bs) known w)
      (λ p v. parse_loop_tail fuel order ts p.1 (replies ++ (p.0 ∷ [])) rs known v)

-- A control packet is a slice whose header is accepted with the type `control`.
pub record IsControl (bytes : List ℕ) : Type 0 where
  pub accepted : (new_packet_header bytes).1 ≡ none
  pub type_is : (new_packet_header bytes).0.ptype ≡ control

control_lem :
    (bytes : List ℕ)
    → IsControl bytes
    → ((new_packet_header bytes).0.order ≢ unset) × (4 ≤ length bytes)
unfolding new_packet_header
control_lem bytes c = ground arith

-- `parse` of a control packet comes to an end, by returning or by a panic, if the slice is a whole
-- number of words. Where it returns, there is no error, the id and the transactions are those of
-- before, and there is a response for each transaction.
pub parse-OrPanics :
    (p : Packet) (bytes : List ℕ)
    → IsControl bytes
    → length bytes % 4 ≡ 0
    → OrPanics
        (λ r.
          (r.1 ≡ none)
          × (r.0.id ≡ p.id)
          × (r.0.transactions ≡ p.transactions)
          × (length r.0.transactions ≤ length r.0.replies))
        (parse p bytes)
unfolding parse parse_control
parse-OrPanics p bytes c w =
    let (known, long) = control_lem bytes c in
    rw (c.accepted, c.type_is)
      (OrPanics-bind (λ _. Unit) _
        (parse_loop (length bytes) (new_packet_header bytes).0.order p.transactions (drop 4 bytes)
          p.replies)
        _
        (parse_loop-OrPanics (length bytes) (new_packet_header bytes).0.order p.transactions
          (drop 4 bytes) p.replies known (omega (arith, length-drop 4 bytes))
          (omega (arith, length-drop 4 bytes)))
        (λ replies _. (refl, refl, refl, filled p.transactions replies)))
  where
    filled :
        (ts : List Transaction) (replies : List Response)
        → length ts ≤ length (fill_replies ts replies)
    filled ts replies = omega (
      arith,
      length-append replies (replicate (length ts - length replies) (lost insufficient_bytes)),
      length-replicate (length ts - length replies) (lost insufficient_bytes),
    )

-- `parse` of a control packet that is no whole number of words never returns: whatever the fuel, its
-- loop is not done, since one to three bytes at the end of the reply are never taken.
parse_never_returns :
    (fuel : ℕ) (p : Packet) (bytes : List ℕ) (r : Packet × Option Error)
    → IsControl bytes
    → length bytes % 4 ≢ 0
    → parse_within fuel p bytes ≢ done r
unfolding parse_within parse_control
parse_never_returns fuel p bytes r c w =
    let (known, long) = control_lem bytes c in
    rw (c.accepted, c.type_is)
      (never-bind
        (parse_loop fuel (new_packet_header bytes).0.order p.transactions (drop 4 bytes) p.replies)
        _ r
        (λ rs.
          parse_loop_tail fuel (new_packet_header bytes).0.order p.transactions (drop 4 bytes)
            p.replies rs known (omega (arith, length-drop 4 bytes))))

-- The loop goes on without end, and does not panic, where the packet has a transaction and one to
-- three bytes are left: each round adds a response and takes nothing.
parse_loop_endless :
    (fuel : ℕ) (order : ByteOrder) (t : Transaction) (ts : List Transaction) (bytes : List ℕ)
    (replies : List Response)
    → 0 < length bytes
    → length bytes < 4
    → parse_loop fuel order (t ∷ ts) bytes replies ≡ stuck
unfolding parse_loop
parse_loop_endless fuel order t ts [] replies some_left short = absurd (omega arith)
parse_loop_endless zero order t ts (b ∷ bs) replies some_left short = refl
parse_loop_endless (suc fuel) order t ts (b ∷ bs) replies some_left short =
    rw (parse_reply_short order t ts (b ∷ bs) short)
      (parse_loop_endless fuel order t ts (b ∷ bs) _ some_left short)

-- A control header followed by one to three bytes makes `parse` run for ever: for a packet with a
-- transaction no fuel is enough.
pub parse_endless :
    (fuel : ℕ) (p : Packet) (t : Transaction) (ts : List Transaction) (bytes : List ℕ)
    → IsControl bytes
    → p.transactions ≡ t ∷ ts
    → 4 < length bytes
    → length bytes < 8
    → parse_within fuel p bytes ≡ stuck
unfolding parse_within parse_control
parse_endless fuel p t ts bytes c has lo hi = rw (
  c.accepted,
  c.type_is,
  has,
  parse_loop_endless fuel (new_packet_header bytes).0.order t ts (drop 4 bytes) p.replies
      (omega (arith, length-drop 4 bytes)) (omega (arith, length-drop 4 bytes)),
)
