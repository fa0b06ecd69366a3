-- ===== src/Hw/Tests/Runs.antt =====
-- Two packets go out, and the replies come in the other order; or no reply comes, and both go out
-- again before a third.
use ipbus.Common.{ℕ, ◌≡◌, ◌≢◌, refl, Bool, true, false, List, [], ◌∷◌, map, length, none, arith}
use ipbus.Outcome.{Outcome, done, panic, stuck}
use ipbus.Protocol.{control, read}
use ipbus.IdLog
use ipbus.IdLog.{modulo, store, new_id_log, oldest, secondoldest, track, new_tracker}
use ipbus.Packet.{Packet, emptypacket}
use ipbus.PacketHeader
use ipbus.PacketHeader.{new_packet_header}
use ipbus.Packet.Headed.{writeheader}
use ipbus.Packet.Parse.{parse, parse_control, parse_loop, parse_reply, read_success, split}
use ipbus.TransactionHeader.{new_transaction_header}
use ipbus.Uint32.{bytes2uint32s}
use ipbus.Packet.Parse.Ends.{IsControl}
use ipbus.Packet.Send.{ChanEvent, send, send_from, sent, closed}
use ipbus.PacketLog
use ipbus.PacketLog.{getall}
use ipbus.Status.{Slice, TargetStatus, new_status_packet}
use ipbus.Hw.{Hw, Conn, new_hw, nextid, new_ticker}
use ipbus.Hw.Write.{write, sendpack, sendstatusrequest}
use ipbus.Hw.Timeout.{updatetimeout, restart, time_left}
use ipbus.Hw.SendNext.{sendnext, sendnext_loop, send_oldest, launch, start_timer}
use ipbus.Hw.ReturnReply.{returnreply, return_loop, return_first, hand_on}
use ipbus.Hw.Run.{on_incoming, on_reply, on_control, on_answer, oldest_answered}
use ipbus.Hw.Run.HandBack.{HasSlotsBehind}
use ipbus.Hw.Run.Reply.{id_of}
use ipbus.Hw.Lost.{lost_starts, lost_ends, recover, resend_loop, write_again}

-- A connection that takes every datagram.
abbrev pub open_conn : Conn
open_conn before bytes = (length bytes, none)

-- A read of one word, whose response goes to the channel `chan`.
abbrev pub read_one : ℕ → Packet
read_one chan = record (emptypacket control) {
  transactions =
      record {
        outheader = record { version = 2; id = 0; words = 1; tid = read; code = 0xf };
        addr = 0x100;
        input = [];
        resp = chan;
        byteslice = false;
        closechan = true;
      }
      ∷ [];
  reqlen = 3;
  resplen = 3;
  request_bytes = 0 ∷ 0 ∷ 0 ∷ 0 ∷ 0x0f ∷ 1 ∷ 0 ∷ 0x20 ∷ 0 ∷ 1 ∷ 0 ∷ 0 ∷ [];
}

abbrev pub after : Outcome Hw → Hw
after (done h) = h
after panic = new_hw 0
after stuck = new_hw 0

abbrev pub channel : ChanEvent → ℕ
channel (sent chan _) = chan
channel (closed chan) = chan

abbrev pub one_sent : Hw
one_sent = after (on_incoming open_conn 5 (read_one 7) (new_hw 1000))

abbrev pub two_sent : Hw
two_sent = after (on_incoming open_conn 6 (read_one 8) one_sent)

-- The reply with one word to the packet with an id below 256.
abbrev pub word_reply : ℕ → Slice
word_reply id = record {
  bytes = 0xf0 ∷ id ∷ 0 ∷ 0x20 ∷ 0 ∷ 1 ∷ 0 ∷ 0x20 ∷ 1 ∷ 2 ∷ 3 ∷ 4 ∷ [];
  spare = [];
}

abbrev pub second_answered : Hw
second_answered = after (on_reply open_conn 7 (word_reply 2) two_sent)

abbrev pub both_answered : Hw
both_answered = after (on_reply open_conn 8 (word_reply 1) second_answered)

abbrev pub returned : Outcome Hw → Bool
returned (done h) = true
returned panic = false
returned stuck = false

pub returned-after : (m : Outcome Hw) → returned m ≡ true → m ≡ done (after m)
returned-after (done h) e = refl
returned-after panic e = cc
returned-after stuck e = cc

abbrev pub lost : Hw
lost = after (lost_starts open_conn two_sent)

-- Nothing is sent while the lost packet is being handled.
abbrev pub third_queued : Hw
third_queued = after (on_incoming open_conn 9 (read_one 9) lost)

abbrev pub nothing_received : TargetStatus
nothing_received = record { mtu = 1500; nresponsebuffer = 4; nextid = 1; received = []; sent = [] }

abbrev pub third_sent : Hw
third_sent = after (lost_ends open_conn 10 nothing_received third_queued)

abbrev pub written_ids : Hw → List ℕ
written_ids h = map (λ bytes. (new_packet_header bytes).0.pid) h.written

pub runs :
    ((returned (on_incoming open_conn 5 (read_one 7) (new_hw 1000)) ≡ true)
      × (returned (on_incoming open_conn 6 (read_one 8) one_sent) ≡ true))
    × ((returned (on_reply open_conn 7 (word_reply 2) two_sent) ≡ true)
        × (returned (on_reply open_conn 8 (word_reply 1) second_answered) ≡ true)
        × HasSlotsBehind two_sent
        × HasSlotsBehind second_answered)
    × ((returned (lost_starts open_conn two_sent) ≡ true)
        × (returned (on_incoming open_conn 9 (read_one 9) lost) ≡ true)
        × (returned (lost_ends open_conn 10 nothing_received third_queued) ≡ true))
    × ((both_answered.inflight ≡ 0) × (both_answered.handlinglost ≡ false))
    × (second_answered.delivered ≡ [])
    × (written_ids both_answered ≡ 1 ∷ 2 ∷ [])
    × (map channel both_answered.delivered ≡ 7 ∷ 7 ∷ 8 ∷ 8 ∷ [])
    × (written_ids third_queued ≡ 1 ∷ 2 ∷ 0 ∷ [])
    × (written_ids third_sent ≡ 1 ∷ 2 ∷ 0 ∷ 1 ∷ 2 ∷ 3 ∷ [])
unfolding on_incoming IdLog.add writeheader nextid new_hw new_id_log modulo store sendnext
    sendnext_loop getall PacketLog.add PacketLog.put PacketLog.delete oldest send_oldest
    IdLog.remove launch start_timer sendpack write new_ticker new_tracker track PacketHeader.encode
    PacketLog.collect PacketLog.get PacketLog.lookup PacketLog.remove PacketLog.serve on_reply
    PacketHeader.decode on_control on_answer oldest_answered parse new_packet_header parse_control
    parse_loop parse_reply new_transaction_header read_success split bytes2uint32s returnreply
    return_loop return_first hand_on send send_from updatetimeout restart time_left secondoldest
    lost_starts sendstatusrequest new_status_packet lost_ends recover resend_loop write_again
runs = (
  (refl, refl),
  (refl, refl, omega arith, omega arith),
  (refl, refl, refl),
  (refl, refl),
  refl,
  refl,
  refl,
  refl,
  refl,
)

pub word_reply-IsControl : (IsControl (word_reply 1).bytes) × (IsControl (word_reply 2).bytes)
unfolding new_packet_header
word_reply-IsControl =
    (record { accepted = refl; type_is = refl }, record { accepted = refl; type_is = refl })

pub word_reply-id : (id_of (word_reply 1) ≢ 0) × (id_of (word_reply 2) ≢ 0)
unfolding PacketHeader.decode
word_reply-id = (λ e. omega arith, λ e. omega arith)
