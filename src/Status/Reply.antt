-- ===== src/Status/Reply.antt =====
-- `parseStatus` on the status that a target sends, written down by an encoder independent of it.
use ipbus.Common.{
  ◌^◌, ℕ, ◌+◌, ◌-◌, ◌*◌, ◌/◌, ◌%◌, ◌≡◌, ◌≢◌, refl, sym, ap, ap₂, ◌∙◌, subst, List, [], ◌∷◌, ◌++◌,
  Option, none, some, All, length, drop, replicate, append_assoc, append-nil, length-append,
  take-append, drop-append, ltb, false, arith, IsU16, IsU32, bit_and, bit_or, ◌>>>◌, ◌<<<◌, u8, u16,
}
use ipbus.Outcome.{done}
use ipbus.Protocol.{big_endian, unset, status, resend}
use ipbus.PacketHeader
use ipbus.PacketHeader.{PacketHeader, new_packet_header}
use ipbus.PacketHeader.RoundTrip
use ipbus.Bits.Word.{bit_and_high, bit_and_mask}
use ipbus.Bits.Bytes.{low_byte, join_bytes}
use ipbus.Uint32.{word_bytes, byte2uint32}
use ipbus.Uint32.Laws.{uint32-word_bytes}
use ipbus.Status.{
  Slice, slice, keep, headers_loop, parse_status, new_resend_packet, new_status_packet,
}

-- A slot of a target's history: a packet header, or a zero word where there is none yet.
abbrev pub slot_bytes : Option PacketHeader → List ℕ
slot_bytes none = 0 ∷ 0 ∷ 0 ∷ 0 ∷ []
slot_bytes (some h) = (PacketHeader.encode h (replicate 4 0)).0

abbrev pub slots_bytes : List (Option PacketHeader) → List ℕ
slots_bytes [] = []
slots_bytes (s ∷ ss) = slot_bytes s ++ slots_bytes ss

abbrev pub IsSlot : Option PacketHeader → Type 0
IsSlot none = Unit
IsSlot (some h) = RoundTrip.IsValid h

-- The headers of the slots that are filled.
abbrev pub filled : List (Option PacketHeader) → List PacketHeader
filled [] = []
filled (none ∷ ss) = filled ss
filled (some h ∷ ss) = h ∷ filled ss

-- Four bytes in the middle of a slice.
slice_lem :
    (s : Slice) (front mid back : List ℕ) (a b : ℕ)
    → s.bytes ++ s.spare ≡ front ++ (mid ++ back)
    → length front ≡ a
    → length mid ≡ 4
    → b ≡ a + 4
    → slice s a b ≡ done mid
unfolding slice
slice_lem s front mid back a b e f m h =
    rw
      (
        e,
        in_reach,
        drop-append front (mid ++ back) f,
        take-append mid back {n = b - a} (omega arith),
      )
      refl
  where
    in_reach : ltb (length (front ++ (mid ++ back))) b ≡ false
    in_reach = ground (arith, length-append front (mid ++ back), length-append mid back)

slot_bytes_lem :
    (o : Option PacketHeader)
    → IsSlot o
    → (length (slot_bytes o) ≡ 4)
      × ((headers : List PacketHeader)
          → keep headers (new_packet_header (slot_bytes o)) ≡ headers ++ filled (o ∷ []))
unfolding new_packet_header
slot_bytes_lem none v = (refl, λ hs. sym (append-nil hs))
slot_bytes_lem (some h) v = (
  (RoundTrip.decode-encode_packet_header h h (replicate 4 0) v (omega arith)).3,
  λ hs. ap (keep hs) (
      (RoundTrip.decode-encode_packet_header PacketHeader.zero_header h (replicate 4 0) v
        (omega arith)).1),
)

headers_loop_lem :
    (slots : List (Option PacketHeader)) (s : Slice) (i start : ℕ) (front back : List ℕ)
    (headers : List PacketHeader)
    → All IsSlot slots
    → s.bytes ++ s.spare ≡ front ++ (slots_bytes slots ++ back)
    → length front ≡ start + 4 * i
    → headers_loop (length slots) i start s headers ≡ done (headers ++ filled slots)
unfolding headers_loop
headers_loop_lem [] s i start front back headers v e f = ap done (sym (append-nil headers))
headers_loop_lem (o ∷ slots) s i start front back headers (v, w) e f =
    let (size, kept) = slot_bytes_lem o v in
    rw
      (
        slice_lem s front (slot_bytes o) (slots_bytes slots ++ back) (start + 4 * i)
            (start + 4 * i + 4)
            (e ∙ ap (λ t. front ++ t) (append_assoc (slot_bytes o) (slots_bytes slots) back)) f size
            refl,
        kept headers,
      )
      (headers_loop_lem slots s (i + 1) start (front ++ slot_bytes o) back
          (headers ++ filled (o ∷ [])) w
          (e
            ∙ ap (λ t. front ++ t) (append_assoc (slot_bytes o) (slots_bytes slots) back)
            ∙ sym (append_assoc front (slot_bytes o) (slots_bytes slots ++ back)))
          (omega (arith, length-append front (slot_bytes o)))
        ∙ ap done (one_more o))
  where
    one_more :
        (o : Option PacketHeader)
        → (headers ++ filled (o ∷ [])) ++ filled slots ≡ headers ++ filled (o ∷ slots)
    one_more none = ap (λ t. t ++ filled slots) (append-nil headers)
    one_more (some h) = append_assoc headers (h ∷ []) (filled slots)

length-slots_bytes :
    (slots : List (Option PacketHeader))
    → All IsSlot slots
    → length (slots_bytes slots) ≡ 4 * length slots
length-slots_bytes [] v = refl
length-slots_bytes (o ∷ slots) (v, w) = omega (
  arith,
  length-append (slot_bytes o) (slots_bytes slots),
  (slot_bytes_lem o v).0,
  length-slots_bytes slots w,
)

big-ne-unset : big_endian ≢ unset
big-ne-unset e = cc

big_word : (v : ℕ) → IsU32 v → byte2uint32 (word_bytes big_endian v) big_endian ≡ done v
unfolding byte2uint32
big_word v h = uint32-word_bytes big_endian big-ne-unset v [] h

next_field :
    (next : ℕ) → IsU16 next → u16 (bit_and (0x2000_00f0 + next * 256) 0x00ff_ff00 >>> 8) ≡ next
next_field next h = omega (
  arith,
  bit_and_high 8 (0x2000_00f0 + next * 256) 0xffff,
  bit_and_mask 16 ((0x2000_00f0 + next * 256) / 2 ^ 8),
)

-- The first 32 bytes of a status reply: its header, the two numbers, the header that the target
-- expects next, and 16 bytes of its traffic history.
abbrev pub front_bytes : ℕ → ℕ → ℕ → List ℕ → List ℕ
front_bytes mtu nbuffers next history =
    0x20
    ∷ 0
    ∷ 0
    ∷ 0xf1
    ∷ (word_bytes big_endian mtu
        ++ (word_bytes big_endian nbuffers
            ++ (word_bytes big_endian (0x2000_00f0 + next * 256) ++ history)))

-- `parseStatus` of a status reply of 64 bytes, whatever the bytes behind it up to the capacity of
-- the slice, returns without a panic or an error what the target reported: its two numbers, the id
-- that it expects next, and, in order, the headers in the filled ones of the four slots for the
-- packets that it received and of the four for those that it sent.
pub parse_status-reply :
    (mtu nbuffers next : ℕ) (history spare : List ℕ) (received sent : List (Option PacketHeader))
    → IsU32 mtu
    → IsU32 nbuffers
    → IsU16 next
    → length history ≡ 16
    → length received ≡ 4
    → length sent ≡ 4
    → All IsSlot received
    → All IsSlot sent
    → parse_status (record {
      bytes = front_bytes mtu nbuffers next history ++ (slots_bytes received ++ slots_bytes sent);
      spare = spare;
    })
      ≡ done (
        record {
          mtu = mtu;
          nresponsebuffer = nbuffers;
          nextid = next;
          received = filled received;
          sent = filled sent;
        },
        none,
      )
unfolding parse_status
parse_status-reply mtu nbuffers next history spare received sent hm hb hn hh hr hs vr vs =
    rw
      (
        slice_lem s (0x20 ∷ 0 ∷ 0 ∷ 0xf1 ∷ []) (word_bytes big_endian mtu) after_mtu 4 8 refl refl
            refl refl,
        big_word mtu hm,
        slice_lem s (0x20 ∷ 0 ∷ 0 ∷ 0xf1 ∷ word_bytes big_endian mtu)
            (word_bytes big_endian nbuffers) after_buffers 8 12 refl refl refl refl,
        big_word nbuffers hb,
        slice_lem s
            (0x20 ∷ 0 ∷ 0 ∷ 0xf1 ∷ (word_bytes big_endian mtu ++ word_bytes big_endian nbuffers))
            (word_bytes big_endian nextheader) rest 12 16 refl refl refl refl,
        big_word nextheader (omega arith),
        subst (λ k. headers_loop k 0 32 s [] ≡ done (filled received)) hr
            (headers_loop_lem received s 0 32 front (slots_bytes sent ++ spare) [] vr split_received
              (omega (arith, hh))),
        subst (λ k. headers_loop k 0 48 s [] ≡ done (filled sent)) hs
            (headers_loop_lem sent s 0 48 (front ++ slots_bytes received) spare [] vs split_sent (
              omega (
                arith,
                length-append front (slots_bytes received),
                length-slots_bytes received vr,
                hh,
                hr,
              ))),
      )
      (ap
        (λ n. done (
          record {
            mtu = mtu;
            nresponsebuffer = nbuffers;
            nextid = n;
            received = filled received;
            sent = filled sent;
          },
          none,
        ))
        (next_field next hn))
  where
    nextheader : ℕ
    nextheader = 0x2000_00f0 + next * 256

    front : List ℕ
    front = front_bytes mtu nbuffers next history

    s : Slice
    s = record { bytes = front ++ (slots_bytes received ++ slots_bytes sent); spare = spare }

    rest : List ℕ
    rest = (history ++ (slots_bytes received ++ slots_bytes sent)) ++ spare

    after_buffers : List ℕ
    after_buffers = word_bytes big_endian nextheader ++ rest

    after_mtu : List ℕ
    after_mtu = word_bytes big_endian nbuffers ++ after_buffers

    split_received :
        s.bytes ++ s.spare ≡ front ++ (slots_bytes received ++ (slots_bytes sent ++ spare))
    split_received =
        append_assoc front (slots_bytes received ++ slots_bytes sent) spare
        ∙ ap (λ t. front ++ t) (append_assoc (slots_bytes received) (slots_bytes sent) spare)

    split_sent : s.bytes ++ s.spare ≡ (front ++ slots_bytes received) ++ (slots_bytes sent ++ spare)
    split_sent =
        split_received ∙ sym (append_assoc front (slots_bytes received) (slots_bytes sent ++ spare))

-- A request to resend the packet with a 16-bit id is four bytes that are read as a big-endian header
-- of that id and of type resend; a request for the status is 64 bytes that start with a big-endian
-- header of id 0 and of type status, with zeros behind it.
pub new_packet_header-request :
    (id : ℕ)
    → IsU16 id
    → (length (new_resend_packet id) ≡ 4)
      × (new_packet_header (new_resend_packet id)
          ≡ (record { version = 2; pid = id; ptype = resend; order = big_endian }, none))
      × (length new_status_packet ≡ 64)
      × (new_packet_header new_status_packet
          ≡ (record { version = 2; pid = 0; ptype = status; order = big_endian }, none))
      × (drop 4 new_status_packet ≡ replicate 60 0)
unfolding new_resend_packet new_status_packet new_packet_header
new_packet_header-request id h = (
  refl,
  ap (λ n. (record { version = 2; pid = n; ptype = resend; order = big_endian }, none))
      (ap₂ bit_or {x = u16 (u8 (id >>> 8) <<< 8)} {y = id / 256 * 2 ^ 8}
          {u = u8 (bit_and id 0x00ff)} {v = id % 256} (omega arith) (omega (arith, low_byte id))
        ∙ join_bytes (id / 256) (id % 256) (omega arith)
        ∙ next_id-IsId id),
  refl,
  refl,
  refl,
)
  where
    next_id-IsId : (n : ℕ) → n / 256 * 256 + n % 256 ≡ n
    next_id-IsId n = omega arith
