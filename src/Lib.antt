-- ===== src/Lib.antt =====
-- A verification library for modbusone, the Modbus library of this repository.
--
-- The program's parts, from the wire up. The package crc computes the checksum that ends a frame.
-- serial_rtu.go makes frames of a slave id, a PDU and the checksum, and takes them apart. modbus.go has
-- the function codes with their limits and the PDUs: requests, replies and exceptions. data.go turns
-- Boolean values and registers into the data of PDUs and back. packet_reader.go infers the size of a
-- packet from its first bytes. failover.go tells whether two PDUs are a request and its reply.
-- simple_handler.go leads requests to functions of the user. rtu_server.go answers packets by a handler,
-- and rtu_client.go sends requests, matches the replies and passes data to its handler. The Read of
-- packet_reader.go makes packets of what the reads of a serial connection give, and serial.go computes
-- the delays between them. The connection of failover.go lets two servers, or two clients, share a line:
-- the one in charge reads and writes, the other listens and takes over when replies are missed;
-- failover_rtu_client.go is the client on it. tcp_server.go puts PDUs behind a header on a TCP stream
-- and answers them, and tcp_client.go sends requests that way. examples/memory is a device with the
-- library, and an interactive client.
--
-- The files. Base has the shared names: Boolean tests, lists, 8- and 16-bit words, bit operations,
-- integers, and results with Go's errors and panics.
--   Crc               crc/crc.go and crc/rtu.go; Crc/Reference has the bitwise CRC-16, Crc/Frame whole
--                     frames, Crc/Detect the detection of errors, Crc/Table the tables
--   ExceptionCode     the rest of the exception codes of modbus.go, and their text
--   FunctionCode      FunctionCode of modbus.go and its methods
--   Minmax, OverSize  minmax.go, and the size settings of serial_rtu.go
--   Pdu               PDU and ToExceptionCode of modbus.go; below it Header, Values and Reply have the
--                     theorems by kind of PDU, and Sent the requests that a client can send
--   Data              data.go
--   Rtu               RTU of serial_rtu.go
--   PacketSize        the size functions of packet_reader.go
--   RequestReply      IsRequestReply of failover.go; Sound is about requests and their replies, Total about
--                     any bytes
--   Requests          MakePDURequestHeaders and MakePDURequestHeadersSized of rtu_client.go
--   Stats             the counters of serial.go
--   PacketReader      the Read of packet_reader.go; Valid and Whole are about one call of it, Frames
--                     about calls one behind the other
--   Serial            the delays of serial.go, and the time-out of rtu_client.go; Context has the
--                     interfaces of a serial context, and the packet readers that packet_reader.go,
--                     rtu_server.go and rtu_client.go make on one
--   Failover          FailoverSerialConn of failover.go; Server and Client have the Read and Write of
--                     each side, with their theorems below them
--   FailoverRtuClient readUnexpected and READ_LOOP of failover_rtu_client.go; Loop is the rest of Serve,
--                     Made the constructor and the functions that start transactions, and
--                     Reports is about what a transaction sends on its channel
--   Device            what a server answers to a request, whatever the line: the contract of the two
--                     servers; Session is that of requests one behind the other
--   Handler           ProtocolHandler and RTUProtocolHandler of modbus.go
--   SimpleHandler     simple_handler.go
--   RtuServer         Serve and Uint64ToSlaveID of rtu_server.go; Packet, Exchange and Refines are about
--                     one packet, Run and Session about a whole run
--   RtuClient         a transaction of ServeRTU of rtu_client.go; Loop is the rest of ServeRTU, with its
--                     reader goroutine, Serve, and the functions that start transactions
--   MultiId           MultiIDHandler of rtu_client.go
--   Tcp               readTCP and writeTCP of tcp_server.go; Server is a connection of Serve, and
--                     Client is tcp_client.go
--   Memory            the memory and the handler of examples/memory/main.go; Main is the choice of the
--                     device, and Client is examples/memory/client.go; Served is its server, and
--                     Linked a client and that server on the two ends of a line
--   Examples          the theorems at concrete inputs
-- A definition has the name of the Go function in snake case, and a method is a function of its
-- receiver. A byte and a uint16 are native numbers; where Go's arithmetic wraps around, so does the
-- definition, and an int that may be negative is an integer. A line of text is the list of its bytes. Byte slices are lists, so that sharing of arrays is not seen, except that MakeWriteRequest
-- is given what lies behind its PDU in the array. An index or a slice bound out of range is the result
-- panic. The over-size settings, which are global variables, are an argument.
--
-- The functions of the user act on a state of any type, and may return errors or panic. What comes from
-- outside is a list: the reads of the connection below a packet reader, the packets that a server or a
-- failover connection reads, the events that reach a client, the bytes of a TCP stream. Whether a
-- connection takes a frame is a function of the frames before it. Each reading of the clock is a number
-- that comes with what is read or written. Where the code lets go of a lock while it sleeps, or another
-- goroutine reads the connection meanwhile, what happens then to the connection is a function.
--
-- The loop of MakePDURequestHeadersSized runs on fuel, one round for each value that is asked for, which
-- is enough, since a round takes one value at least; that of a TCP connection, on one round more than
-- there are bytes, since a round reads some. The other loops are on lists.
--
-- Not modelled: the reads and writes of the serial port and of sockets, the loop that accepts TCP
-- connections, locks, contexts, goroutines and channels but for what they hand on, the sleeps, negative
-- baud rates, the overflow of counters, the text of errors but for that of an ExceptionCode, the parsing
-- of command-line flags, the signal handler of the example, and debug output.
pub mod Base
pub mod Crc
pub mod Data
pub mod ExceptionCode
pub mod FunctionCode
pub mod Minmax
pub mod OverSize
pub mod Pdu
pub mod Rtu
pub mod PacketSize
pub mod RequestReply
pub mod Requests
pub mod Handler
pub mod MultiId
pub mod SimpleHandler
pub mod Stats
pub mod PacketReader
pub mod Failover
pub mod Serial
pub mod Device
pub mod RtuServer
pub mod RtuClient
pub mod FailoverRtuClient
pub mod Tcp
pub mod Memory
pub mod Examples
