-- ===== src/Target/Prepare/Reads.antt =====
-- How a read is split over transactions and packets.
use ipbus.Common.{
  ℕ, zero, suc, ◌-◌, ◌≤◌, ◌<◌, ◌≡◌, refl, ap, subst, true, List, [], ◌∷◌, length, arith, ◌==◌, u8,
}
use ipbus.Protocol.{read}
use ipbus.Packet.{Packet, Transaction, newrequesttransaction, space, sub64}
use ipbus.Packet.Add.{is_read}
use ipbus.Packet.Add.Bounds.{placed, IsRequest, Accepts, input_words, reply_words, space-IsValid}
use ipbus.Target.{UsrRequest}
use ipbus.Target.Prepare.{Packs, make_room, clip, next_addr, read_loop}
use ipbus.Target.Prepare.Room.{
  IsReady, HasRoom, make_room-HasRoom, add_to_last, Queues, Queues-step, Queues-end, clip_bounds,
  behind, next_addr-behind,
}

-- A transaction that reads some of the `n` words that are left, from `addr` on.
pub record IsReadChunk (req : UsrRequest) (n addr : ℕ) (t : Transaction) : Type 0 where
  pub tid_is : t.outheader.tid ≡ req.typeid
  pub addr_is : t.addr ≡ addr
  pub some_words : 0 < t.outheader.words
  pub words_fit : t.outheader.words ≤ 255
  pub words_left : t.outheader.words ≤ n
  pub input_is : t.input ≡ []
  pub resp_is : t.resp ≡ req.resp
  pub byteslice_is : t.byteslice ≡ req.byteslice
  pub closes : t.closechan ≡ (n - t.outheader.words == 0)

-- Transactions that read the `n` words from `addr` on, one chunk behind the other. An incrementing
-- read goes on at the next address, modulo 2^32; a non-incrementing one stays.
abbrev pub ReadChunks : UsrRequest → ℕ → ℕ → List Transaction → Type 0
ReadChunks req n addr [] = n ≡ 0
ReadChunks req n addr (t ∷ ts) =
    IsReadChunk req n addr t
    × ReadChunks req (n - t.outheader.words) (behind (req.typeid == read) addr t.outheader.words) ts

chunk_words :
    (req : UsrRequest) (n addr m : ℕ) (ts : List Transaction)
    → m ≤ 255
    → ReadChunks req (n - m) (next_addr (req.typeid == read) addr m) ts
    → ReadChunks req (n - u8 m) (behind (req.typeid == read) addr (u8 m)) ts
chunk_words req n addr m ts l h =
    subst (λ w. ReadChunks req (n - w) (behind (req.typeid == read) addr w) ts) {x = m} {y = u8 m}
      (omega arith)
      (subst (λ a. ReadChunks req (n - m) a ts) (next_addr-behind (req.typeid == read) addr m) h)

-- The transaction that a round of the loop adds for `m` of the `n` words.
abbrev read_chunk : UsrRequest → ℕ → ℕ → ℕ → Transaction
read_chunk req n addr m =
    newrequesttransaction req.typeid (u8 m) addr req.input req.resp req.byteslice (n - m == 0)

read_chunk-IsReadChunk :
    (req : UsrRequest) (n addr m : ℕ) (p : Packet)
    → req.input ≡ []
    → 0 < m
    → m ≤ n
    → m ≤ 255
    → IsReadChunk req n addr (placed p (read_chunk req n addr m))
unfolding newrequesttransaction
read_chunk-IsReadChunk req n addr m p i h k l = record {
  tid_is = refl;
  addr_is = refl;
  some_words = omega arith;
  words_fit = omega arith;
  words_left = omega arith;
  input_is = i;
  resp_is = refl;
  byteslice_is = refl;
  closes = ap (λ w. n - w == 0) (omega arith);
}

read_chunk-Accepts :
    (req : UsrRequest) (n addr m : ℕ) (packs : Packs)
    → is_read req.typeid ≡ true
    → req.input ≡ []
    → HasRoom 2 2 packs
    → m ≤ 255
    → m ≤ sub64 (space (packs.1)).1 1
    → IsRequest (read_chunk req n addr m) × Accepts packs.1 (read_chunk req n addr m)
unfolding newrequesttransaction input_words reply_words
read_chunk-Accepts req n addr m packs r i room l k = (
  record { tid_known = ground arith; words_fit = omega arith },
  record {
    input_is = ground (arith, no_input);
    request_room = omega (arith, no_input);
    reply_room = ground (arith, space-IsValid packs.1 room.ready.last_valid);
  },
)
  where
    no_input : length req.input ≡ 0
    no_input = ap length i

pub read_loop-Queues :
    (fuel : ℕ) (req : UsrRequest) (n addr : ℕ) (packs : Packs)
    → is_read req.typeid ≡ true
    → req.input ≡ []
    → n ≤ fuel
    → IsReady packs
    → Queues (ReadChunks req n addr) packs (read_loop fuel req n addr packs)
unfolding read_loop newrequesttransaction
read_loop-Queues fuel req zero addr packs r i f v = Queues-end _ packs v refl
read_loop-Queues zero req (suc n) addr packs r i f v = absurd (omega arith)
read_loop-Queues (suc fuel) req (suc n) addr packs r i f v =
    let roomy = make_room 2 2 packs in
    let (room, same) = make_room-HasRoom 2 2 packs (omega arith) (omega arith) v in
    let m = clip (sub64 (space (roomy.1)).1 1) (suc n) in
    let (some_words, in_space, in_request, in_byte) =
      clip_bounds (sub64 (space (roomy.1)).1 1) (suc n)
        (ground (arith, room.reply_room, space-IsValid (roomy.1) room.ready.last_valid))
        (omega arith) in
    let (q, a) = read_chunk-Accepts req (suc n) addr m roomy r i room in_byte in_space in
    let (adds, _, added) = add_to_last roomy (read_chunk req (suc n) addr m) room.ready q a in
    Queues-step same added (rw adds)
      (λ ts h. (
        read_chunk-IsReadChunk req (suc n) addr m roomy.1 i some_words in_request in_byte,
        chunk_words req (suc n) addr m ts in_byte h,
      ))
      (read_loop-Queues fuel req (suc n - m) (next_addr (req.typeid == read) addr m) _ r i
        (omega arith) added.ready)
