-- ===== src/Packet/Tests.antt =====
-- A packet is filled, headed, answered and sent on; the theorems at that packet.
use ipbus.Common.{
  ℕ, ◌≤◌, ◌<◌, ◌≡◌, ◌≢◌, ◌⊎◌, inl, inr, refl, true, false, List, [], ◌∷◌, length, drop, none, some,
  arith, ◌==◌,
}
use ipbus.Outcome.{done, panic, stuck, OrPanics}
use ipbus.Protocol.{big_endian, little_endian, unset, Error, control, read, write, rmwsum, no_mask}
use ipbus.PacketHeader.{new_packet_header}
use ipbus.TransactionHeader.{encode}
use ipbus.Uint32.{put_uint32}
use ipbus.Packet.{Packet, Transaction, emptypacket, newrequesttransaction, space}
use ipbus.Packet.Add.{add, reserve, append_transaction, transaction_data, put_input}
use ipbus.Packet.Add.Bounds.{
  IsValid, Accepts, extended, extended-IsValid, reply_words, input_words, add_lem, add_full_read,
}
use ipbus.Packet.Parse.{parse, parse_within, lost}
use ipbus.Packet.Parse.Ends.{IsControl, parse-OrPanics, parse_endless}
use ipbus.Packet.Parse.Replies.{
  Answers, AreAnswers, reply_bytes, responses, made_up, parse-reply_bytes,
}
use ipbus.Packet.Send.{Readers, sent, closed, send}
use ipbus.Packet.Send.Delivery.{deliveries, stays_open, send_lem}
use ipbus.Packet.Headed.{writeheader, writeheader_lem}

abbrev read_two : Transaction
read_two = record {
  outheader = record { version = 2; id = 0; words = 2; tid = read; code = 0xf };
  addr = 0x100;
  input = [];
  resp = 7;
  byteslice = false;
  closechan = true;
}

abbrev write_one : Transaction
write_one = record {
  outheader = record { version = 2; id = 1; words = 1; tid = write; code = 0xf };
  addr = 0x200;
  input = 0xdeadbeef ∷ [];
  resp = 8;
  byteslice = true;
  closechan = true;
}

-- A packet of the two.
abbrev both : Packet
both = record (emptypacket control) {
  transactions = read_two ∷ write_one ∷ [];
  reqlen = 6;
  resplen = 5;
  request_bytes =
      0 ∷ 0 ∷ 0 ∷ 0 ∷ 0x0f ∷ 2 ∷ 0 ∷ 0x20 ∷ 0 ∷ 1 ∷ 0 ∷ 0 ∷ 0x1f ∷ 1 ∷ 1 ∷ 0x20 ∷ 0 ∷ 2 ∷ 0 ∷ 0
      ∷ 0xef ∷ 0xbe ∷ 0xad ∷ 0xde ∷ [];
}

filled :
    (add (emptypacket control) (newrequesttransaction read 2 0x100 [] 7 false true)
      ≡ done (
        record (emptypacket control) {
          transactions = read_two ∷ [];
          reqlen = 3;
          resplen = 4;
          request_bytes = 0 ∷ 0 ∷ 0 ∷ 0 ∷ 0x0f ∷ 2 ∷ 0 ∷ 0x20 ∷ 0 ∷ 1 ∷ 0 ∷ 0 ∷ [];
        },
        none,
      ))
unfolding add newrequesttransaction reserve append_transaction transaction_data put_input put_uint32
    space encode
filled = refl

filled_again :
    add
      (record (emptypacket control) {
        transactions = read_two ∷ [];
        reqlen = 3;
        resplen = 4;
        request_bytes = 0 ∷ 0 ∷ 0 ∷ 0 ∷ 0x0f ∷ 2 ∷ 0 ∷ 0x20 ∷ 0 ∷ 1 ∷ 0 ∷ 0 ∷ [];
      })
      (newrequesttransaction write 1 0x200 (0xdeadbeef ∷ []) 8 true true)
    ≡ done (both, none)
unfolding add newrequesttransaction reserve append_transaction transaction_data put_input put_uint32
    space encode
filled_again = refl

little-ne-unset : little_endian ≢ unset
little-ne-unset e = cc

big-ne-unset : big_endian ≢ unset
big-ne-unset e = cc

both-IsValid : IsValid both
unfolding reply_words
both-IsValid = record {
  has_order = little-ne-unset;
  request_fits = omega arith;
  reply_fits = omega arith;
  request_capacity = refl;
  reply_capacity = refl;
  bytes_counted = refl;
  reply_counted = refl;
  count_bounded = omega arith;
}

abbrev add_up : Transaction
add_up = newrequesttransaction rmwsum 1 0x300 (1 ∷ []) 9 false true

add_lem_example :
    (Accepts both add_up
      × (add both add_up ≡ done (extended both add_up, none))
      × IsValid (extended both add_up))
    ⊎ ((e : Error) × (¬ Accepts both add_up) × (add both add_up ≡ done (both, some e)))
unfolding newrequesttransaction
add_lem_example = add_lem both add_up both-IsValid (omega arith) (λ e. cc)

abbrev read_250 : Transaction
read_250 = record read_two { outheader = record (read_two.outheader) { words = 250 } }

-- A packet whose reply has only 112 words left.
abbrev crowded : Packet
crowded = extended both read_250

crowded-IsValid : IsValid crowded
unfolding reply_words input_words
crowded-IsValid =
    extended-IsValid both read_250 both-IsValid
      (record { input_is = refl; request_room = omega arith; reply_room = omega arith })

abbrev full_read : Transaction
full_read = record read_two { outheader = record (read_two.outheader) { words = 255 } }

add_full_read_example :
    (p' : Packet) × (add crowded full_read ≡ done (p', none)) × (p'.respcap < p'.resplen)
unfolding reply_words
add_full_read_example =
    add_full_read crowded full_read crowded-IsValid refl refl refl (omega arith) (omega arith)

abbrev answers : Answers
answers =
    (write_one, record { code = 5; values = [] })
    ∷ (read_two, record { code = 0; values = 5 ∷ 6 ∷ [] })
    ∷ []

answers-AreAnswers : AreAnswers both.transactions answers
unfolding reply_words
answers-AreAnswers = (
  refl,
  record {
    request = omega arith;
    version_fits = omega arith;
    id_fits = omega arith;
    code_fits = omega arith;
    values_fit = tt;
    values_are = inr (omega arith, refl);
  },
  (
    refl,
    record {
      request = omega arith;
      version_fits = omega arith;
      id_fits = omega arith;
      code_fits = omega arith;
      values_fit = omega arith;
      values_are = inl (refl, refl);
    },
    tt,
  ),
)

parse-reply_bytes_example :
    parse both (reply_bytes big_endian 0x1234 answers)
    ≡ done (record both { replies = made_up both answers (responses big_endian answers) }, none)
parse-reply_bytes_example =
    parse-reply_bytes both big_endian 0x1234 answers big-ne-unset (omega arith) refl
      answers-AreAnswers

-- One answer of two, in bytes.
abbrev half_reply : List ℕ
half_reply = 0x20 ∷ 0 ∷ 1 ∷ 0xf0 ∷ 0x20 ∷ 0 ∷ 2 ∷ 0 ∷ 0 ∷ 0 ∷ 0 ∷ 5 ∷ 0 ∷ 0 ∷ 0 ∷ 6 ∷ []

abbrev split_reply : List ℕ
split_reply = 0x20 ∷ 0 ∷ 1 ∷ 0xf0 ∷ 0x20 ∷ 0 ∷ []

half_reply-IsControl : IsControl half_reply
unfolding new_packet_header
half_reply-IsControl = record { accepted = refl; type_is = refl }

split_reply-IsControl : IsControl split_reply
unfolding new_packet_header
split_reply-IsControl = record { accepted = refl; type_is = refl }

parse-OrPanics_example :
    OrPanics
      (λ r.
        (r.1 ≡ none)
        × (r.0.id ≡ both.id)
        × (r.0.transactions ≡ both.transactions)
        × (length r.0.transactions ≤ length r.0.replies))
      (parse both half_reply)
parse-OrPanics_example = parse-OrPanics both half_reply half_reply-IsControl (omega arith)

parse_endless_example : parse_within 1000 both split_reply ≡ stuck
parse_endless_example =
    parse_endless 1000 both read_two (write_one ∷ []) split_reply split_reply-IsControl refl
      (omega arith) (omega arith)

abbrev replied : Packet
replied = record both { replies = lost no_mask ∷ lost no_mask ∷ [] }

abbrev all_receive : Readers
all_receive past chan = true

send_runs :
    send all_receive [] replied
    ≡ done (sent 7 (lost no_mask) ∷ closed 7 ∷ sent 8 (lost no_mask) ∷ closed 8 ∷ [])
unfolding send
send_runs = refl

-- Nobody receives from channel 8; channel 7 is closed already.
send_waits : send (λ past chan. chan == 7) [] replied ≡ stuck
unfolding send
send_waits = refl

send_closed : send all_receive (closed 7 ∷ []) replied ≡ panic
unfolding send
send_closed = refl

send_lem_example :
    ((length replied.transactions ≤ length replied.replies)
      × (stays_open [] replied.transactions ≡ true)
      × (send all_receive [] replied ≡ done (deliveries replied.transactions replied.replies)))
    ⊎ (((length replied.replies < length replied.transactions)
          ⊎ (stays_open [] replied.transactions ≡ false))
        × (send all_receive [] replied ≡ panic))
send_lem_example = send_lem all_receive [] replied (λ past chan. refl)

writeheader_lem_example :
    let (p', e) = writeheader both 0xabcd in
    (e ≡ none)
    × (new_packet_header p'.request_bytes ≡ (record (both.header) { pid = 0xabcd }, none))
    × (drop 4 p'.request_bytes ≡ drop 4 both.request_bytes)
    × (p'.transactions ≡ both.transactions)
    × IsValid p'
writeheader_lem_example = writeheader_lem both 0xabcd both-IsValid refl (omega arith) (omega arith)
