-- ===== src/Target/Prepare/Writes.antt =====
-- How a write is split over transactions and packets.
use ipbus.Common.{
  ℕ, zero, suc, ◌+◌, ◌-◌, ◌≤◌, ◌<◌, ◌≡◌, refl, sym, ap, ap₂, subst, true, List, [], ◌∷◌, length,
  take, drop, length-take, length-drop, drop-drop, arith, ◌==◌, u8,
}
use ipbus.Protocol.{write}
use ipbus.Packet.{Packet, Transaction, newrequesttransaction, space, sub64}
use ipbus.Packet.Add.{is_write}
use ipbus.Packet.Add.Bounds.{placed, IsRequest, Accepts, input_words, reply_words, space-IsValid}
use ipbus.Target.{UsrRequest}
use ipbus.Target.Prepare.{Packs, make_room, clip, next_addr, write_loop}
use ipbus.Target.Prepare.Room.{
  IsReady, HasRoom, make_room-HasRoom, add_to_last, Queues, Queues-step, Queues-end, clip_bounds,
  behind, next_addr-behind,
}

-- A transaction that writes the first of the words that are left, from `addr` on.
pub record IsWriteChunk (req : UsrRequest) (left : List ℕ) (addr : ℕ) (t : Transaction)
    : Type 0 where
  pub tid_is : t.outheader.tid ≡ req.typeid
  pub addr_is : t.addr ≡ addr
  pub some_words : 0 < t.outheader.words
  pub words_fit : t.outheader.words ≤ 255
  pub words_left : t.outheader.words ≤ length left
  pub input_is : t.input ≡ take t.outheader.words left
  pub resp_is : t.resp ≡ req.resp
  pub byteslice_is : t.byteslice ≡ req.byteslice
  pub closes : t.closechan ≡ (length left - t.outheader.words == 0)

-- Transactions that write the words that are left from `addr` on, one chunk behind the other. An
-- incrementing write goes on at the next address, modulo 2^32; a non-incrementing one stays.
abbrev pub WriteChunks : UsrRequest → List ℕ → ℕ → List Transaction → Type 0
WriteChunks req left addr [] = left ≡ []
WriteChunks req left addr (t ∷ ts) =
    IsWriteChunk req left addr t
    × WriteChunks req (drop t.outheader.words left)
        (behind (req.typeid == write) addr t.outheader.words) ts

chunk_words :
    (req : UsrRequest) (left : List ℕ) (addr m : ℕ) (ts : List Transaction)
    → m ≤ 255
    → WriteChunks req (drop m left) (next_addr (req.typeid == write) addr m) ts
    → WriteChunks req (drop (u8 m) left) (behind (req.typeid == write) addr (u8 m)) ts
chunk_words req left addr m ts l h =
    subst (λ w. WriteChunks req (drop w left) (behind (req.typeid == write) addr w) ts) {x = m}
      {y = u8 m} (omega arith)
      (subst (λ a. WriteChunks req (drop m left) a ts)
        (next_addr-behind (req.typeid == write) addr m) h)

-- The transaction that a round of the loop adds for `m` of the words that are left.
abbrev write_chunk : UsrRequest → List ℕ → ℕ → ℕ → ℕ → Transaction
write_chunk req left n addr m =
    newrequesttransaction req.typeid (u8 m) addr (take m left) req.resp req.byteslice (n - m == 0)

write_chunk-IsWriteChunk :
    (req : UsrRequest) (left : List ℕ) (n addr m : ℕ) (p : Packet)
    → n ≡ length left
    → 0 < m
    → m ≤ n
    → m ≤ 255
    → IsWriteChunk req left addr (placed p (write_chunk req left n addr m))
unfolding newrequesttransaction
write_chunk-IsWriteChunk req left n addr m p e h k l = record {
  tid_is = refl;
  addr_is = refl;
  some_words = omega arith;
  words_fit = omega arith;
  words_left = omega arith;
  input_is = ap (λ w. take w left) (omega arith);
  resp_is = refl;
  byteslice_is = refl;
  closes = ap₂ (λ a w. a - w == 0) e (omega arith);
}

write_chunk-Accepts :
    (req : UsrRequest) (left : List ℕ) (n addr m : ℕ) (packs : Packs)
    → is_write req.typeid ≡ true
    → n ≡ length left
    → HasRoom 3 1 packs
    → m ≤ n
    → m ≤ 255
    → m ≤ sub64 (space (packs.1)).0 2
    → IsRequest (write_chunk req left n addr m) × Accepts packs.1 (write_chunk req left n addr m)
unfolding newrequesttransaction input_words reply_words
write_chunk-Accepts req left n addr m packs r e room j l k = (
  record { tid_known = ground arith; words_fit = omega arith },
  record {
    input_is = ground (arith, length-take m left);
    request_room = ground (arith, length-take m left, space-IsValid packs.1 room.ready.last_valid);
    reply_room = ground arith;
  },
)

pub write_loop-Queues :
    (fuel : ℕ) (req : UsrRequest) (n index addr : ℕ) (packs : Packs)
    → is_write req.typeid ≡ true
    → n ≡ length (drop index req.input)
    → n ≤ fuel
    → IsReady packs
    → Queues
        (WriteChunks req (drop index req.input) addr)
        packs
        (write_loop fuel req n index addr packs)
unfolding write_loop newrequesttransaction
write_loop-Queues fuel req zero index addr packs r e f v =
    Queues-end _ packs v (nothing_left (drop index req.input) e)
  where
    nothing_left : (xs : List ℕ) → 0 ≡ length xs → xs ≡ []
    nothing_left [] z = refl
    nothing_left (x ∷ xs) z = absurd (omega arith)
write_loop-Queues zero req (suc n) index addr packs r e f v = absurd (omega arith)
write_loop-Queues (suc fuel) req (suc n) index addr packs r e f v =
    let left = drop index req.input in
    let roomy = make_room 3 1 packs in
    let (room, same) = make_room-HasRoom 3 1 packs (omega arith) (omega arith) v in
    let m = clip (sub64 (space (roomy.1)).0 2) (suc n) in
    let (some_words, in_space, in_request, in_byte) =
      clip_bounds (sub64 (space (roomy.1)).0 2) (suc n)
        (ground (arith, room.request_room, space-IsValid (roomy.1) room.ready.last_valid))
        (omega arith) in
    let (q, a) =
      write_chunk-Accepts req left (suc n) addr m roomy r e room in_request in_byte in_space in
    let (_, adds, added) = add_to_last roomy (write_chunk req left (suc n) addr m) room.ready q a in
    let shift : drop m left ≡ drop (index + m) req.input = drop-drop index m req.input in
    Queues-step same added (rw adds)
      (λ ts h. (
        write_chunk-IsWriteChunk req left (suc n) addr m roomy.1 e some_words in_request in_byte,
        chunk_words req left addr m ts in_byte (
            subst (λ xs. WriteChunks req xs (next_addr (req.typeid == write) addr m) ts) (sym shift)
              h),
      ))
      (write_loop-Queues fuel req (suc n - m) (index + m) (next_addr (req.typeid == write) addr m) _
        r (omega (arith, ap length shift, length-drop m left)) (omega arith) added.ready)
