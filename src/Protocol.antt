-- ===== src/Protocol.antt =====
-- The constants and small types of ipbus.go, and the errors of the package as values.
use ipbus.Common.{ℕ}

abbrev pub protocolversion : ℕ
protocolversion = 2

-- `binary.ByteOrder`, an interface. `unset` is its nil value, which a zero header holds.
pub data ByteOrder : Type 0 where
  big_endian little_endian unset : ByteOrder

abbrev pub defaultorder : ByteOrder
defaultorder = ByteOrder.little_endian

-- `MaxPacketSize`, in bytes.
abbrev pub max_packet_size : ℕ
max_packet_size = 1500

-- `InfoCode`, a uint8.
abbrev pub success : ℕ
success = 0x0

abbrev pub request : ℕ
request = 0xf

-- `typeID`, a uint8.
abbrev pub read : ℕ
read = 0x0

abbrev pub write : ℕ
write = 0x1

abbrev pub readnoninc : ℕ
readnoninc = 0x2

abbrev pub writenoninc : ℕ
writenoninc = 0x3

abbrev pub rmwbits : ℕ
rmwbits = 0x4

abbrev pub rmwsum : ℕ
rmwsum = 0x5

-- `packetType`, a uint8.
abbrev pub control : ℕ
control = 0x0

abbrev pub status : ℕ
status = 0x1

abbrev pub resend : ℕ
resend = 0x2

-- The errors that the package builds with `fmt.Errorf`, one constructor for each message.
pub data Error : Type 0 where
  -- ipbus.go and `byteorder`
  packet_header_short packet_header_invalid packet_header_no_order : Error
  transaction_header_short transaction_header_no_order : Error
  byteorder_short byteorder_unknown : Error
  -- `packet.parse`
  resend_received insufficient_bytes : Error
  invalid_packet_type : ℕ → Error
  ipbus_error : ℕ → Error
  -- `packet.add`
  read_with_input write_length rmwbits_length rmwsum_length : Error
  read_no_space write_no_space rmwbits_no_space rmwsum_no_space : Error
  -- hw_stuff.go and hw.go
  id_zero idlog_full idlog_empty no_queued_id : Error
  -- register.go and target.go
  no_mask : Error
  -- hw.go and connectionmanager.go
  hw_stopped no_connection : Error
  -- an error of another package
  outside_error : Error
