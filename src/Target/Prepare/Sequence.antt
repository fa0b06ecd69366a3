-- ===== src/Target/Prepare/Sequence.antt =====
-- Requests one after the other, with dispatches between them.
use ipbus.Common.{
  ◌≡◌, refl, sym, ap, ◌∙◌, true, false, List, [], ◌∷◌, ◌++◌, All, append_assoc, append-nil, ◌⊎◌,
  inl, inr, if◌then◌else◌,
}
use ipbus.Outcome.{Outcome, done, ◌>>=◌}
use ipbus.Packet.{Packet, Transaction}
use ipbus.Packet.Add.Bounds.{IsValid}
use ipbus.Target.{UsrRequest}
use ipbus.Target.Prepare.{add_request, all_packets, last_packet, prepare, prepare_all}
use ipbus.Target.Prepare.Room.{queued, queued-append, All-append}
use ipbus.Target.Prepare.Requests.{HasInput, CarriesOut, prepare_lem}

-- A dispatch, or a request with the input of its type.
abbrev pub IsRequested : UsrRequest → Type 0
IsRequested req = (req.dispatch ≡ true) ⊎ ((req.dispatch ≡ false) × HasInput req)

-- A dispatch needs no transaction.
abbrev pub Carried : UsrRequest → List Transaction → Type 0
Carried req ts = ((req.dispatch ≡ true) × (ts ≡ [])) ⊎ ((req.dispatch ≡ false) × CarriesOut req ts)

-- Transactions that carry the requests out, in order.
abbrev pub AllCarried : List UsrRequest → List Transaction → Type 0
AllCarried [] ts = ts ≡ []
AllCarried (req ∷ reqs) ts =
    (chunks rest : List Transaction) × (ts ≡ chunks ++ rest)
    × Carried req chunks
    × AllCarried reqs rest

pub record AllPrepared (reqs : List UsrRequest) (packs : List Packet)
    (out : Outcome (List Packet × List Packet)) : Type 0 where
  pub left : List Packet
  pub sent : List Packet
  pub chunks : List Transaction
  pub returns : out ≡ done (left, sent)
  pub left_valid : All IsValid left
  pub sent_valid : All IsValid sent
  pub queue : queued (sent ++ left) ≡ queued packs ++ chunks
  pub carried : AllCarried reqs chunks

dispatch_lem :
    (req : UsrRequest) (packs : List Packet)
    → req.dispatch ≡ true
    → prepare packs req ≡ done ([], packs)
unfolding prepare
dispatch_lem req packs d =
    ap
      (λ b.
        if b
        then done ([], packs)
        else (add_request req (last_packet [] packs) >>= λ packs'. done (all_packets packs', [])))
      d

-- Whatever the requests, each a dispatch or one with the input of its type, on packets whose books
-- are right: the loop takes them all without a panic or an endless loop, the books of the packets
-- that it sends and of those that are left are right, and the packets sent, followed by those left,
-- hold just the transactions that were queued before and, behind them, those that carry the requests
-- out in order.
pub prepare_all_lem :
    (reqs : List UsrRequest) (packs : List Packet)
    → All IsRequested reqs
    → All IsValid packs
    → AllPrepared reqs packs (prepare_all packs reqs)
unfolding prepare_all
prepare_all_lem [] packs h v = record {
  left = packs;
  sent = [];
  chunks = [];
  returns = refl;
  left_valid = v;
  sent_valid = tt;
  queue = sym (append-nil (queued packs));
  carried = refl;
}
prepare_all_lem (req ∷ reqs) packs (inl d, h) v =
    let r = prepare_all_lem reqs [] h tt in
    record {
      left = r.left;
      sent = packs ++ r.sent;
      chunks = r.chunks;
      returns = rw (dispatch_lem req packs d, r.returns) refl;
      left_valid = r.left_valid;
      sent_valid = All-append IsValid packs r.sent v r.sent_valid;
      queue =
          ap queued (append_assoc packs r.sent r.left)
          ∙ queued-append packs (r.sent ++ r.left)
          ∙ ap (λ t. queued packs ++ t) r.queue;
      carried = ([], r.chunks, refl, inl (d, refl), r.carried);
    }
prepare_all_lem (req ∷ reqs) packs (inr (d, i), h) v =
    let q = prepare_lem req packs i d v in
    let r = prepare_all_lem reqs q.packs' h q.valid in
    record {
      left = r.left;
      sent = r.sent;
      chunks = q.chunks ++ r.chunks;
      returns = rw (q.returns, r.returns) refl;
      left_valid = r.left_valid;
      sent_valid = r.sent_valid;
      queue =
          r.queue ∙ ap (λ t. t ++ r.chunks) q.queue ∙ append_assoc (queued packs) q.chunks r.chunks;
      carried = (q.chunks, r.chunks, refl, inr (d, q.carried), r.carried);
    }
