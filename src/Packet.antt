-- ===== src/Packet.antt =====
-- transaction.go: transactions, responses and packets. The children hold the methods: `Add` fills a
-- request, `Parse` reads a reply, `Send` hands the responses on, `Headed` writes the packet header.
pub mod Add
pub mod Parse
pub mod Send
pub mod Headed
mod Tests
use ipbus.Common.{ℕ, ◌+◌, ◌-◌, ◌/◌, ◌%◌, ◌^◌, Bool, List, [], ◌∷◌, Option, none, length, u8}
use ipbus.Protocol.{Error, protocolversion, request, defaultorder, max_packet_size}
use ipbus.PacketHeader.{PacketHeader}
use ipbus.TransactionHeader.{TransactionHeader}

-- `Data` and `DataB` are nil (`none`) or a slice.
pub record Response : Type 0 where
  pub err : Option Error
  pub code : ℕ
  pub data_u32 : Option (List ℕ)
  pub data_b : Option (List ℕ)

-- A channel of responses is known by a number.
abbrev pub Chan : Type 0
Chan = ℕ

pub record Transaction : Type 0 where
  pub outheader : TransactionHeader
  pub addr : ℕ
  pub input : List ℕ
  pub resp : Chan
  pub byteslice : Bool
  pub closechan : Bool

unfoldable pub newrequesttransaction : ℕ → ℕ → ℕ → List ℕ → Chan → Bool → Bool → Transaction
newrequesttransaction tid words addr input resp byteslice final = record {
  outheader = record {
    version = u8 protocolversion;
    id = 0x0;
    words = words;
    tid = tid;
    code = request;
  };
  addr = addr;
  input = input;
  resp = resp;
  byteslice = byteslice;
  closechan = final;
}

-- `request` is the slice up to its length; `sent`, a wall-clock time, is a number.
pub record Packet : Type 0 where
  pub header : PacketHeader
  pub id : ℕ
  pub transactions : List Transaction
  pub replies : List Response
  pub reqcap : ℕ
  pub respcap : ℕ
  pub reqlen : ℕ
  pub resplen : ℕ
  pub request_bytes : List ℕ
  pub sent : ℕ

-- The words of IPbus data in a packet of the maximum size: 28 bytes are IP and UDP headers.
abbrev pub packet_words : ℕ
packet_words = (max_packet_size - 28) / 4

abbrev pub emptypacket : ℕ → Packet
emptypacket pt = record {
  header = record { version = u8 protocolversion; pid = 0; ptype = pt; order = defaultorder };
  id = 0;
  transactions = [];
  replies = [];
  reqcap = packet_words;
  respcap = packet_words;
  reqlen = 1;
  resplen = 1;
  request_bytes = 0 ∷ 0 ∷ 0 ∷ 0 ∷ [];
  sent = 0;
}

-- `uint` is 64 bits wide; its difference wraps.
abbrev pub sub64 : ℕ → ℕ → ℕ
sub64 a b = (a + 2 ^ 64 - b) % 2 ^ 64

abbrev pub add64 : ℕ → ℕ → ℕ
add64 a b = (a + b) % 2 ^ 64

unfoldable pub space : Packet → ℕ × ℕ
space p = (sub64 p.reqcap p.reqlen, sub64 p.respcap p.resplen)
