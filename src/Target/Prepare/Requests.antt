-- ===== src/Target/Prepare/Requests.antt =====
-- A whole request of `preparepackets`, of each type.
use ipbus.Common.{
  ℕ, ◌+◌, ◌≡◌, refl, ap, ◌∙◌, true, false, ◌||◌, List, [], ◌∷◌, ◌++◌, All, append_assoc, append-nil,
  length, ◌⊎◌, inl, inr, arith, ◌==◌, if◌then◌else◌,
}
use ipbus.Outcome.{Outcome, done, ◌>>=◌}
use ipbus.Protocol.{rmwbits, rmwsum}
use ipbus.Packet.{Packet, Transaction, newrequesttransaction}
use ipbus.Packet.Add.{is_read, is_write}
use ipbus.Packet.Add.Bounds.{placed, IsValid, input_words, reply_words}
use ipbus.Target.{UsrRequest}
use ipbus.Target.Prepare.{Packs, all_packets, make_room, add_rmw, add_request, last_packet, prepare}
use ipbus.Target.Prepare.Room.{
  queued, queued-append, IsReady, make_room-HasRoom, add_to_last, All-append, Queues, Queues-step,
  Queues-end, Queues-map, emptypacket-IsValid,
}
use ipbus.Target.Prepare.Reads.{ReadChunks, read_loop-Queues}
use ipbus.Target.Prepare.Writes.{WriteChunks, write_loop-Queues}

-- The input that the methods of a target give a request of each type.
pub data HasInput (req : UsrRequest) : Type 0 where
  for_read : is_read req.typeid ≡ true → req.input ≡ [] → HasInput req
  for_write : is_write req.typeid ≡ true → HasInput req
  for_rmwbits : req.typeid ≡ rmwbits → length req.input ≡ 2 → HasInput req
  for_rmwsum : req.typeid ≡ rmwsum → length req.input ≡ 1 → HasInput req

-- The one transaction of a read-modify-write; its channel is closed behind the response.
pub record IsRmw (req : UsrRequest) (t : Transaction) : Type 0 where
  pub tid_is : t.outheader.tid ≡ req.typeid
  pub addr_is : t.addr ≡ req.addr
  pub words_are : t.outheader.words ≡ 1
  pub input_is : t.input ≡ req.input
  pub resp_is : t.resp ≡ req.resp
  pub byteslice_is : t.byteslice ≡ req.byteslice
  pub closes : t.closechan ≡ true

-- The transactions that carry a request out.
pub data CarriesOut (req : UsrRequest) (ts : List Transaction) : Type 0 where
  reads : is_read req.typeid ≡ true → ReadChunks req req.nwords req.addr ts → CarriesOut req ts
  writes : is_write req.typeid ≡ true → WriteChunks req req.input req.addr ts → CarriesOut req ts
  modifies :
      (req.typeid == rmwbits || req.typeid == rmwsum) ≡ true
      → (t : Transaction) → ts ≡ t ∷ []
      → IsRmw req t
      → CarriesOut req ts

rmw-Queues :
    (rq rs : ℕ) (req : UsrRequest) (packs : Packs)
    → rq ≡ length req.input + 2
    → rs ≡ 2
    → ((req.typeid ≡ rmwbits) × (length req.input ≡ 2))
      ⊎ ((req.typeid ≡ rmwsum) × (length req.input ≡ 1))
    → IsReady packs
    → Queues (CarriesOut req) packs (add_rmw rq rs req packs)
unfolding add_rmw newrequesttransaction input_words reply_words
rmw-Queues rq rs req packs e e' kind v =
    let roomy = make_room rq rs packs in
    let (room, same) = make_room-HasRoom rq rs packs (ground arith) (omega arith) v in
    let t = newrequesttransaction req.typeid 1 req.addr req.input req.resp req.byteslice true in
    let (adds, _, added) =
      add_to_last roomy t room.ready (record { tid_known = ground arith; words_fit = omega arith })
        (record {
          input_is = ground arith;
          request_room = ground (arith, room.request_room);
          reply_room = ground (arith, room.reply_room);
        }) in
    Queues-step same added adds
      (λ ts h.
        modifies (ground arith) (placed roomy.1 t) (ap (λ us. placed roomy.1 t ∷ us) h) (record {
          tid_is = refl;
          addr_is = refl;
          words_are = refl;
          input_is = refl;
          resp_is = refl;
          byteslice_is = refl;
          closes = refl;
        }))
      (Queues-end (λ ts. ts ≡ []) _ added.ready refl)

-- The packets before the request, with a new one if there was none.
last_packet_lem :
    (front packs : List Packet)
    → All IsValid front
    → All IsValid packs
    → IsReady (last_packet front packs)
      × (queued (all_packets (last_packet front packs)) ≡ queued (front ++ packs))
unfolding last_packet
last_packet_lem front [] f v = (
  record { front_valid = f; last_valid = emptypacket-IsValid _ },
  simp (queued-append, append-nil),
)
last_packet_lem front (p ∷ []) f v = (record { front_valid = f; last_valid = v.0 }, refl)
last_packet_lem front (p ∷ q ∷ rest) f v =
    let (ready, same) =
      last_packet_lem (front ++ (p ∷ [])) (q ∷ rest) (All-append IsValid front (p ∷ []) f (v.0, tt))
        v.1 in
    (ready, same ∙ ap queued (append_assoc front (p ∷ []) (q ∷ rest)))

add_request-Queues :
    (req : UsrRequest) (packs : Packs)
    → HasInput req
    → IsReady packs
    → Queues (CarriesOut req) packs (add_request req packs)
unfolding add_request
add_request-Queues req packs (for_read r i) v = rw r (
    Queues-map (λ ts. reads r)
      (read_loop-Queues req.nwords req req.nwords req.addr packs r i (omega arith) v))
add_request-Queues req packs (for_write w) v =
    let nr : is_read req.typeid ≡ false = ground arith in
    rw (nr, w)
      (Queues-map (λ ts. writes w)
        (write_loop-Queues (length req.input) req (length req.input) 0 req.addr packs w refl
          (omega arith) v))
add_request-Queues req packs (for_rmwbits t i) v =
    let nr : is_read req.typeid ≡ false = ground arith in
    let nw : is_write req.typeid ≡ false = ground arith in
    let is : (req.typeid == rmwbits) ≡ true = ground arith in
    rw (nr, nw, is) (rmw-Queues 4 2 req packs (omega arith) refl (inl (t, i)) v)
add_request-Queues req packs (for_rmwsum t i) v =
    let nr : is_read req.typeid ≡ false = ground arith in
    let nw : is_write req.typeid ≡ false = ground arith in
    let nb : (req.typeid == rmwbits) ≡ false = ground arith in
    let is : (req.typeid == rmwsum) ≡ true = ground arith in
    rw (nr, nw, nb, is) (rmw-Queues 3 2 req packs (omega arith) refl (inr (t, i)) v)

-- What `prepare` returns for a request that is no dispatch.
pub record Prepared (req : UsrRequest) (packs : List Packet)
    (out : Outcome (List Packet × List Packet)) : Type 0 where
  pub packs' : List Packet
  pub chunks : List Transaction
  pub returns : out ≡ done (packs', [])
  pub valid : All IsValid packs'
  pub queue : queued packs' ≡ queued packs ++ chunks
  pub carried : CarriesOut req chunks

-- A request with the input of its type, on packets whose books are right, is taken without a panic,
-- an error of `add` or an endless loop, and nothing is sent yet. The books of all packets are right
-- afterwards: they count the words of the request and those of the reply to its transactions, and both
-- are no more than fit a packet of the maximum size. Behind the
-- transactions that were queued stand, in order, just those that carry the request out: chunks of 1
-- to 255 words that cover the words of a read or a write at the right addresses, each written word
-- once and in order, or the one transaction of a read-modify-write. Only the last of them closes the
-- channel.
pub prepare_lem :
    (req : UsrRequest) (packs : List Packet)
    → HasInput req
    → req.dispatch ≡ false
    → All IsValid packs
    → Prepared req packs (prepare packs req)
unfolding prepare
prepare_lem req packs input d v =
    let (ready, same) = last_packet_lem [] packs tt v in
    let q = add_request-Queues req (last_packet [] packs) input ready in
    record {
      packs' = all_packets q.packs';
      chunks = q.chunks;
      returns =
          ap
            (λ b.
              if b then done ([], packs) else (add_request req (last_packet [] packs) >>= finish))
            d
          ∙ ap (λ m. m >>= finish) q.returns;
      valid =
          All-append IsValid q.packs'.0 (q.packs'.1 ∷ []) q.ready.front_valid
            (q.ready.last_valid, tt);
      queue = q.queue ∙ ap (λ ts. ts ++ q.chunks) same;
      carried = q.right;
    }
  where
    finish : Packs → Outcome (List Packet × List Packet)
    finish packs' = done (all_packets packs', [])
