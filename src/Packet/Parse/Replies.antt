-- ===== src/Packet/Parse/Replies.antt =====
-- `parse` on what a target sends back, written down by an encoder that is independent of it.
use ipbus.Common.{
  drop, ◌-◌, ℕ, zero, suc, ◌+◌, ◌≤◌, ◌<◌, ◌≡◌, ◌≢◌, refl, sym, ap, ◌∙◌, List, [], ◌∷◌, ◌++◌, none,
  some, length, replicate, append_assoc, append-nil, length-append, get_elem?, arith, IsU16,
}
use ipbus.Outcome.{done}
use ipbus.Protocol.{ByteOrder, unset, control, insufficient_bytes}
use ipbus.PacketHeader
use ipbus.PacketHeader.{PacketHeader, new_packet_header}
use ipbus.Packet.{Packet, Transaction, Response}
use ipbus.Packet.Parse.{parse_reply, parse_loop, parse_control, parse, fill_replies, lost}
use ipbus.Packet.Parse.Answers.{
  Answer, IsAnswer, answer_bytes, response_to, parse_reply-answer, length-answer_bytes,
}

-- Some answers in the order of their arrival, each with its transaction.
abbrev pub Answers : Type 0
Answers = List (Transaction × Answer)

abbrev pub answers_bytes : ByteOrder → Answers → List ℕ
answers_bytes order [] = []
answers_bytes order ((t, a) ∷ rest) = answer_bytes order t a ++ answers_bytes order rest

abbrev pub responses : ByteOrder → Answers → List Response
responses order [] = []
responses order ((t, a) ∷ rest) = response_to order t a ∷ responses order rest

-- Each answer is for the transaction of the packet that has its id, and is right for it.
abbrev pub AreAnswers : List Transaction → Answers → Type 0
AreAnswers ts [] = Unit
AreAnswers ts ((t, a) ∷ rest) =
    (get_elem? ts t.outheader.id ≡ some t) × IsAnswer t a × AreAnswers ts rest

room :
    (order : ByteOrder)
    → order ≢ unset
    → (t : Transaction) (a : Answer) (rest : Answers)
    → 4 + length (answers_bytes order rest) ≤ length (answers_bytes order ((t, a) ∷ rest))
room order known t a rest = omega (
  arith,
  length-append (answer_bytes order t a) (answers_bytes order rest),
  length-answer_bytes order known t a,
)

parse_loop_step :
    (fuel : ℕ) (order : ByteOrder) (ts : List Transaction) (bytes rest : List ℕ)
    (replies : List Response) {r : Response}
    → 0 < length bytes
    → parse_reply order ts bytes ≡ done (r, rest)
    → parse_loop (suc fuel) order ts bytes replies
      ≡ parse_loop fuel order ts rest (replies ++ (r ∷ []))
unfolding parse_loop
parse_loop_step fuel order ts [] rest replies h e = absurd (omega arith)
parse_loop_step fuel order ts (b ∷ bs) rest replies h e = rw e

parse_loop-answers :
    (fuel : ℕ) (order : ByteOrder) (ts : List Transaction) (answers : Answers)
    (replies : List Response)
    → order ≢ unset
    → AreAnswers ts answers
    → length (answers_bytes order answers) ≤ fuel
    → parse_loop fuel order ts (answers_bytes order answers) replies
      ≡ done (replies ++ responses order answers)
parse_loop-answers fuel order ts [] replies known v f =
    unfold parse_loop in ap done (sym (append-nil replies))
parse_loop-answers zero order ts ((t, a) ∷ rest) replies known v f =
    absurd (omega (arith, room order known t a rest))
parse_loop-answers (suc fuel) order ts ((t, a) ∷ rest) replies known (found, valid, others) f =
    parse_loop_step fuel order ts (answer_bytes order t a ++ answers_bytes order rest)
      (answers_bytes order rest) replies (omega (arith, room order known t a rest))
      (parse_reply-answer order known ts t a (answers_bytes order rest) found valid)
    ∙ parse_loop-answers fuel order ts rest (replies ++ (response_to order t a ∷ [])) known others
        (omega (arith, room order known t a rest))
    ∙ ap done (append_assoc replies (response_to order t a ∷ []) (responses order rest))

-- A reply on the wire: a control header with any packet id, and the answers behind it.
abbrev pub reply_bytes : ByteOrder → ℕ → Answers → List ℕ
reply_bytes order pid answers =
    (PacketHeader.encode (record { version = 2; pid = pid; ptype = control; order = order })
      (replicate 4 0)).0
    ++ answers_bytes order answers

length-responses :
    (order : ByteOrder) (answers : Answers) → length (responses order answers) ≡ length answers
length-responses order [] = refl
length-responses order ((t, a) ∷ rest) = omega (arith, length-responses order rest)

-- Some replies, and an error response for each transaction by which the packet exceeds the answers.
abbrev pub made_up : Packet → Answers → List Response → List Response
made_up p answers replies =
    replies
    ++ replicate (length p.transactions - length answers)
        (record { err = some insufficient_bytes; code = 0xe; data_u32 = none; data_b = none })

-- `parse` of a reply that a target has made up, in either byte order, of answers to some of the
-- packet's transactions, in any order of arrival: `parse` returns without an error, and the packet's
-- replies are, in that order, the response to each answer, made up with as many responses of the
-- error "Did not receive sufficient bytes" as there are more transactions than answers. The response
-- to a success has the words of the answer, as bytes if the transaction asked for bytes; the
-- response to an error code has that code and its error.
pub parse-reply_bytes :
    (p : Packet) (order : ByteOrder) (pid : ℕ) (answers : Answers)
    → order ≢ unset
    → IsU16 pid
    → p.replies ≡ []
    → AreAnswers p.transactions answers
    → parse p (reply_bytes order pid answers)
      ≡ done (record p { replies = made_up p answers (responses order answers) }, none)
unfolding parse parse_control
parse-reply_bytes p order pid answers known fits empty v =
    rw
      (
        header.0,
        header.1,
        parse_loop-answers (length (reply_bytes order pid answers)) order p.transactions answers
            p.replies known v (omega (arith, enough)),
      )
      (ap
          (λ rs. done (
            record p { replies = fill_replies p.transactions (rs ++ responses order answers) },
            none,
          ))
          empty
        ∙ ap
            (λ n. done (
              record p {
                replies =
                    responses order answers
                    ++ replicate (length p.transactions - n) (lost insufficient_bytes);
              },
              none,
            ))
            (length-responses order answers))
  where
    h : PacketHeader
    h = record { version = 2; pid = pid; ptype = control; order = order }

    header :
        (new_packet_header (reply_bytes order pid answers) ≡ (h, none))
        × (drop 4 (reply_bytes order pid answers) ≡ answers_bytes order answers)
    header =
        PacketHeader.RoundTrip.new_packet_header-encode h (answers_bytes order answers) (record {
          version_is = refl;
          pid_fits = fits;
          ptype_fits = omega arith;
          has_order = known;
        })

    enough : length (answers_bytes order answers) ≤ length (reply_bytes order pid answers)
    enough = omega (
      arith,
      length-append
          (PacketHeader.encode (record { version = 2; pid = pid; ptype = control; order = order })
            (replicate 4 0)).0
          (answers_bytes order answers),
    )
