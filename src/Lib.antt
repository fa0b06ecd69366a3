-- ===== src/Lib.antt =====
-- ipbus: the IPbus 2.0 client of this repository, a Go package that reads and writes the registers
-- of hardware over UDP.
--
-- The parts, and the files that model them. Go source files stand in the repository's root.
--
--   Common, Bits, Outcome   shared: lists over native numbers, unsigned words with their wrap-around
--                           written out, their binary digits, and how a call ends (`done`, `panic`,
--                           or `stuck` where the fuel of a loop ran out or a statement
--                           waits for a channel)
--   Protocol, Uint32        ipbus.go: constants, errors, byte2uint32, bytes2uint32s
--   PacketHeader            ipbus.go: packetheader, decode, encode; transaction.go: byteorder
--   TransactionHeader       ipbus.go: transactionheader, decode, encode
--   Packet                  transaction.go: transaction, Response, packet, emptypacket, space; its
--                           children Add (packet.add), Parse (packet.parse), Send (packet.send),
--                           Headed (packet.writeheader)
--   Register                register.go: newmask, ReadMask, WriteMask
--   Target                  target.go: usrrequest; its children Prepare (preparepackets), Calls (the
--                           methods that queue a request), Masked (MaskedWrite), Now (the
--                           blocking methods), Answered (from the calls to the responses)
--   IdLog, Status           hw_stuff.go: idlog, tracker; newResendPacket, newStatusPacket, parseStatus
--   PacketLog               hw_stuff.go: packetlog and its goroutine
--   Hw                      hw.go: hw, newhw, nextid; its children Write (sendpack, sendstatusrequest,
--                           sendresendrequest), Timeout (updatetimeout), SendNext, ReturnReply, Run
--                           (the cases of Run, ConfigDevice), Lost (handlelost), Endpoint (Send,
--                           receive and the rounds of Run, with the channels), Ids, Inv and Moving
--                           (what holds between two steps), Answer (the reply to a packet),
--                           Trace (runs of steps)
--   Strings                 what parser.go and connectionmanager.go use of Go's package strings
--   AddressTable            parser.go: block, parseregfile; its children Attributes and Parse (the
--                           program), Spec (address tables), Read, Run, Registers, Meaning,
--                           Ends
--   Connections             connectionmanager.go: CM, NewCM, CM.Target; target.go: Target, New;
--                           parser.go: Target.parse
--
-- A call of Target.Read or of its like puts a usrrequest on a channel. preparepackets takes requests
-- from there and splits them with packet.add into transactions, which fill packets; a dispatch hands
-- the packets to the hardware connection, which writes their headers and sends them. Run gives a packet
-- its id and queues it in tosend and queuedids; sendnext moves it to flying and flyingids and writes
-- it. A reply goes through packet.parse into responses and waits in replied until all packets sent
-- before it are done with; then packet.send delivers the responses on the channels of the
-- transactions, in the order of the transactions. When the timer goes off, handlelost asks the device
-- for its status and has the reply or the packet sent again.
--
-- A connection manager reads the names, addresses and address tables of the targets from a file; New
-- makes a target with its hardware connection and reads its registers with parseregfile, which goes
-- through the tokens of an address table and calls itself for the files of modules. os.Open with the
-- decoder of encoding/xml, strconv and path/filepath are parameters (Outside): a file is its tokens
-- and the error behind them. Reading a connections file and the package net are parameters too. Of two
-- entries of Regs with the same key the first counts, which is the one that was written last.
--
-- A step of the connection is one case of the select of Run, or ConfigDevice or handlelost up to their
-- wait for a status or from there on; it runs to its end before the next one. In the source
-- ConfigDevice and handlelost are goroutines, whose statements may also run between those of Run. A
-- packet log is served by a goroutine that answers one message after the other, so its methods are
-- functions of its map. net.Conn.Write is a parameter (Conn): from what was written before and a
-- datagram, the number of bytes taken and an error. The theorems on whole steps assume that every write
-- takes its datagram without an error (Works), that the wait is not 0, and that flyingids has slots for
-- the packets that may go out (HasSlots, HasSlotsBehind). What was taken from the users, what was
-- written, the datagrams that Run took and what went out on the channels of the users is kept in the
-- state, as taken, written, arrived and delivered; the source keeps no such logs. Who receives from the
-- channels of the users is kept as readers: a send that nobody receives is `stuck`, and one on a closed
-- channel panics. The theorems that a step comes to an end assume that the users receive whatever is
-- sent to them (AllReceive); in the runs they do. Hw.Answer says what the reply to a packet is.
--
-- A run (Hw.Trace.Reach, Hw.Endpoint.Live.Live) is taken under rules for when ConfigDevice, a goroutine
-- beside Run, may end, and for the datagrams that Run may take. The usual rules are that ConfigDevice
-- ends, with an id that is not 0, before a packet is taken, since afterwards it may set the next id
-- with packets on their way, and that a datagram is a status (id 0) or a control packet of whole words,
-- with a slot left in flyingids. A tick of the timer may come at any time, since Ticker.Stop leaves one
-- that is in the channel.
--
-- Hw.Endpoint adds the channels of the connection: Send puts a packet on `incoming`, receive puts what it
-- reads on `replies` (net.Conn.Read is a parameter of its round), and a round of Run takes one of them, or
-- goes on with the timer, the report or the request to stop. preparepackets puts its packets on
-- `incoming` itself, as Send does with a packet that it does not refuse. A statement that waits for a channel is
-- `stuck`, as no step of its own.
--
-- A Go error is a value of `Error` beside the result, a run-time panic is `panic`. A slice of bytes is
-- the list of its bytes up to its length; where an expression may reach into the capacity, the bytes
-- there are given (Status.Slice) or the code panics right behind it (Packet.Parse.split). A channel is
-- a number, and what is sent on it a list of events. Wrap-around of uint8, uint16, uint32 and uint64
-- is written out where the code computes in these types. MaxPacketSize, a variable, has its initial
-- value.
--
-- Fuel: packet.parse loops while bytes are left and has as much fuel as the reply has bytes, which is
-- enough because a round takes four bytes at least when the reply is a whole number of words. The
-- loops of preparepackets have the number of words that are left as fuel, since a round takes one
-- word at least. sendnext and returnreply have one more than the ids in queuedids and flyingids, of
-- which each round but the last takes one; the loop of handlelost has one more than the ids in
-- flyingids, since it goes through ids that are there. parseregfile has as fuel the depth to which files
-- of modules name others, which is enough where they do not name each other in a circle.
--
-- Not modelled: the types of parser.go that nothing uses; the dummy hardware, the printing of the
-- licence, and all printing.
pub mod Common
pub mod Bits
pub mod Protocol
pub mod Outcome
pub mod Uint32
pub mod PacketHeader
pub mod TransactionHeader
pub mod Register
pub mod Packet
pub mod Target
pub mod IdLog
pub mod Status
pub mod Strings
pub mod AddressTable
pub mod Connections
pub mod PacketLog
pub mod Hw
