-- ===== src/Packet/Headed.antt =====
-- `packet.writeheader`: the packet's id goes into its first four bytes before it is sent.
use ipbus.Common.{ℕ, ◌<◌, ◌≡◌, refl, ◌∙◌, drop, Option, none, IsU16, arith}
use ipbus.Protocol.{Error}
use ipbus.PacketHeader.{PacketHeader, zero_header, encode, new_packet_header}
use ipbus.PacketHeader.RoundTrip
use ipbus.Packet.{Packet}
use ipbus.Packet.Add.Bounds.{IsValid}

unfoldable pub writeheader : Packet → ℕ → Packet × Option Error
writeheader p id =
    let header = record (p.header) { pid = id } in
    let (bytes, e) = encode header p.request_bytes in
    (record p { header = header; id = id; request_bytes = bytes }, e)

-- A packet of the protocol's version and of a four-bit type, with right books, gets any 16-bit id
-- without an error. A receiver that reads the first four bytes finds that id, the packet's type and
-- its byte order; the transactions behind them are unchanged, and the books stay right.
pub writeheader_lem :
    (p : Packet) (id : ℕ)
    → IsValid p
    → p.header.version ≡ 2
    → p.header.ptype < 16
    → IsU16 id
    → let (p', e) = writeheader p id in
      (e ≡ none)
      × (new_packet_header p'.request_bytes ≡ (record (p.header) { pid = id }, none))
      × (drop 4 p'.request_bytes ≡ drop 4 p.request_bytes)
      × (p'.transactions ≡ p.transactions)
      × IsValid p'
unfolding writeheader new_packet_header
writeheader_lem p id v version ptype fits =
    let header : PacketHeader = record (p.header) { pid = id } in
    let (e, read, rest, size) =
      RoundTrip.decode-encode_packet_header zero_header header p.request_bytes
        (record {
          version_is = version;
          pid_fits = fits;
          ptype_fits = ptype;
          has_order = v.has_order;
        })
        (omega arith) in
    (
      e,
      read,
      rest,
      refl,
      record {
        has_order = v.has_order;
        request_fits = v.request_fits;
        reply_fits = v.reply_fits;
        request_capacity = v.request_capacity;
        reply_capacity = v.reply_capacity;
        bytes_counted = size ∙ v.bytes_counted;
        reply_counted = v.reply_counted;
        count_bounded = v.count_bounded;
      },
    )
