-- ===== src/Hw/Answer.antt =====
-- What a packet asks for, and the reply to it among the datagrams that have arrived.
use ipbus.Common.{ℕ, ◌≤◌, ◌≡◌, refl, ap, ap₂, ◌∙◌, List, [], ◌∷◌, ◌++◌, map, length, append_assoc}
use ipbus.Outcome.{done}
use ipbus.Packet.{Packet, Transaction, Response}
use ipbus.Packet.Parse.Responses.{responses_to}
use ipbus.PacketHeader
use ipbus.PacketHeader.{zero_header}

-- The transactions of a packet, and the replies that it has before it is sent.
abbrev pub Asked : Type 0
Asked = List Transaction × List Response

abbrev pub ask_of : Packet → Asked
ask_of p = (p.transactions, p.replies)

-- The packet id in a datagram.
abbrev pub pid_of : List ℕ → ℕ
pid_of bytes = (PacketHeader.decode zero_header bytes).0.pid

-- The packet has the transactions that were asked for, and its replies are those that `parse` makes
-- for them of a datagram with the id of the packet that has arrived, one for each transaction at
-- least.
pub record IsReply (arrived : List (List ℕ)) (ask : Asked) (p : Packet) : Type 0 where
  pub before : List (List ℕ)
  pub bytes : List ℕ
  pub after : List (List ℕ)
  pub came : arrived ≡ before ++ (bytes ∷ after)
  pub id_is : pid_of bytes ≡ p.id
  pub same_request : p.transactions ≡ ask.0
  pub parsed : responses_to ask.0 ask.1 bytes ≡ done p.replies
  pub enough : length p.transactions ≤ length p.replies

pub IsReply-more :
    (arrived more : List (List ℕ)) (ask : Asked) (p : Packet)
    → IsReply arrived ask p
    → IsReply (arrived ++ more) ask p
IsReply-more arrived more ask p r = record {
  before = r.before;
  bytes = r.bytes;
  after = r.after ++ more;
  came = ap (λ l. l ++ more) r.came ∙ append_assoc r.before (r.bytes ∷ r.after) more;
  id_is = r.id_is;
  same_request = r.same_request;
  parsed = r.parsed;
  enough = r.enough;
}

-- The packets `packs` are `given`, one by one, with replies that have arrived.
abbrev pub AreReplies : List (List ℕ) → List Packet → List Packet → Type 0
AreReplies arrived [] [] = Unit
AreReplies arrived (g ∷ given) (p ∷ packs) =
    IsReply arrived (ask_of g) p × AreReplies arrived given packs
AreReplies arrived _ _ = ⊥

pub AreReplies-more :
    (arrived more : List (List ℕ)) (given packs : List Packet)
    → AreReplies arrived given packs
    → AreReplies (arrived ++ more) given packs
AreReplies-more arrived more [] [] r = tt
AreReplies-more arrived more (g ∷ given) (p ∷ packs) (r, rs) =
    (IsReply-more arrived more (ask_of g) p r, AreReplies-more arrived more given packs rs)
AreReplies-more arrived more [] (p ∷ packs) r = r
AreReplies-more arrived more (g ∷ given) [] r = r

pub AreReplies-append :
    (arrived : List (List ℕ)) (given given' packs packs' : List Packet)
    → AreReplies arrived given packs
    → AreReplies arrived given' packs'
    → AreReplies arrived (given ++ given') (packs ++ packs')
AreReplies-append arrived [] given' [] packs' r s = s
AreReplies-append arrived (g ∷ given) given' (p ∷ packs) packs' (r, rs) s =
    (r, AreReplies-append arrived given given' packs packs' rs s)
AreReplies-append arrived [] given' (p ∷ packs) packs' r s = absurd r
AreReplies-append arrived (g ∷ given) given' [] packs' r s = absurd r

pub AreReplies-transactions :
    (arrived : List (List ℕ)) (given packs : List Packet)
    → AreReplies arrived given packs
    → map (λ p. p.transactions) packs ≡ map (λ p. p.transactions) given
AreReplies-transactions arrived [] [] r = refl
AreReplies-transactions arrived (g ∷ given) (p ∷ packs) (r, rs) =
    ap₂ ◌∷◌ r.same_request (AreReplies-transactions arrived given packs rs)
AreReplies-transactions arrived [] (p ∷ packs) r = absurd r
AreReplies-transactions arrived (g ∷ given) [] r = absurd r
