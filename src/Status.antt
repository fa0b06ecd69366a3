-- ===== src/Status.antt =====
-- hw_stuff.go: the packets that ask a target for its status or for a lost reply, and the status that
-- comes back.
pub mod Reply
mod Tests
use ipbus.Common.{
  ℕ, zero, suc, ◌+◌, ◌-◌, ◌*◌, List, [], ◌∷◌, ◌++◌, Option, none, some, length, take, drop, set,
  replicate, ltb, if◌then◌else◌, bit_and, bit_or, ◌>>>◌, u8, u16,
}
use ipbus.Outcome.{Outcome, done, panic, stuck, ◌>>=◌}
use ipbus.Protocol.{Error, status, resend, big_endian}
use ipbus.PacketHeader.{PacketHeader, new_packet_header, version_byte, boq}
use ipbus.Uint32.{byte2uint32}

unfoldable pub new_resend_packet : ℕ → List ℕ
new_resend_packet id =
    set
      (set (set (set (replicate 4 0) 0 version_byte) 1 (u8 (id >>> 8))) 2 (u8 (bit_and id 0x00ff)))
      3 (bit_or boq (u8 resend))

unfoldable pub new_status_packet : List ℕ
new_status_packet = set (set (replicate 64 0) 0 version_byte) 3 (bit_or boq (u8 status))

-- A slice of bytes, and the bytes behind it up to its capacity: a slice expression may reach them.
pub record Slice : Type 0 where
  pub bytes : List ℕ
  pub spare : List ℕ

-- `data[a:b]`, where `a ≤ b`
unfoldable pub slice : Slice → ℕ → ℕ → Outcome (List ℕ)
slice s a b =
    if ltb (length (s.bytes ++ s.spare)) b
    then panic
    else done (take (b - a) (drop a (s.bytes ++ s.spare)))

pub record TargetStatus : Type 0 where
  pub mtu : ℕ
  pub nresponsebuffer : ℕ
  pub nextid : ℕ
  pub received : List PacketHeader
  pub sent : List PacketHeader

-- The header is kept where it was read without an error.
abbrev pub keep : List PacketHeader → PacketHeader × Option Error → List PacketHeader
keep headers (h, none) = headers ++ (h ∷ [])
keep headers (h, some e) = headers

-- The loop over four headers from `start` on, with the rounds that are left; `i` counts up.
unfoldable pub headers_loop : ℕ → ℕ → ℕ → Slice → List PacketHeader → Outcome (List PacketHeader)
headers_loop zero i start s headers = done headers
headers_loop (suc k) i start s headers = do
  let index = start + 4 * i
  bytes ← slice s index (index + 4)
  headers_loop k (i + 1) start s (keep headers (new_packet_header bytes))

unfoldable pub parse_status : Slice → Outcome (TargetStatus × Option Error)
parse_status s = do
  mtu_bytes ← slice s 4 8
  mtu ← byte2uint32 mtu_bytes big_endian
  buffer_bytes ← slice s 8 12
  nresponsebuffer ← byte2uint32 buffer_bytes big_endian
  next_bytes ← slice s 12 16
  nextheader ← byte2uint32 next_bytes big_endian
  received ← headers_loop 4 0 32 s []
  sent ← headers_loop 4 0 48 s []
  done (
    record {
      mtu = mtu;
      nresponsebuffer = nresponsebuffer;
      nextid = u16 (bit_and nextheader 0x00ff_ff00 >>> 8);
      received = received;
      sent = sent;
    },
    none,
  )
