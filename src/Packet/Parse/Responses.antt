-- ===== src/Packet/Parse/Responses.antt =====
-- The responses that `parse` makes of a datagram, without the rest of the packet.
use ipbus.Common.{ℕ, ◌≡◌, refl, sym, ap, ◌∙◌, List, drop, length, Option, none}
use ipbus.Outcome.{Outcome, done, ◌>>=◌, bind-done}
use ipbus.Protocol.{Error, control}
use ipbus.PacketHeader.{new_packet_header}
use ipbus.Packet.{Packet, Transaction, Response, emptypacket}
use ipbus.Packet.Parse.{parse, parse_control, parse_loop, fill_replies}
use ipbus.Packet.Parse.Ends.{IsControl}

-- `parse` of the datagram for a packet with these transactions and replies.
abbrev pub responses_to : List Transaction → List Response → List ℕ → Outcome (List Response)
responses_to trans replies bytes =
    parse (record (emptypacket control) { transactions = trans; replies = replies }) bytes >>= λ q.
    done (q.0.replies)

abbrev looped : Packet → List ℕ → Outcome (List Response)
looped p bytes =
    parse_loop (length bytes) (new_packet_header bytes).0.order p.transactions (drop 4 bytes)
      p.replies

abbrev filled : Packet → List Response → Packet × Option Error
filled p replies = (record p { replies = fill_replies p.transactions replies }, none)

parse_is :
    (p : Packet) (bytes : List ℕ)
    → IsControl bytes
    → parse p bytes ≡ (looped p bytes >>= λ replies. done (filled p replies))
unfolding parse parse_control
parse_is p bytes c = rw (c.accepted, c.type_is) refl

-- The other fields of the packet do not matter for a control packet.
pub parse-responses_to :
    (p : Packet) (bytes : List ℕ) (q : Packet × Option Error)
    → IsControl bytes
    → parse p bytes ≡ done q
    → responses_to p.transactions p.replies bytes ≡ done (q.0.replies)
parse-responses_to p bytes q c e =
    let bare : Packet = record (emptypacket control) {
      transactions = p.transactions;
      replies = p.replies;
    } in
    let (replies, same, is) =
      bind-done (looped p bytes) (λ replies. done (filled p replies))
        (sym (parse_is p bytes c) ∙ e) in
    ap (λ m. m >>= λ r. done (r.0.replies)) (parse_is bare bytes c)
    ∙ ap (λ m. m >>= (λ replies. done (filled bare replies)) >>= λ r. done (r.0.replies)) same
    ∙ ap (λ m. m >>= λ r. done (r.0.replies)) is
