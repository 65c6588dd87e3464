-- ===== src/Lib.antt =====
-- duino_bus: packets between a host and a microcontroller, SLIP encoded, over a serial line, a USB
-- interface or a socket. This library models the device's side of it in C++, src/ and src/duino_bus/, and
-- the host's side in Python, duino_bus/.
--
-- A program gives a bus (`IBus`) storage for its packets, registers packet handlers, and calls
-- `processByte` until a packet has arrived and then `handlePacket`. `processByte` puts a byte of the
-- transport through the `PacketDecoder`; `handlePacket` asks the handlers in order and writes the
-- response with `writePacket`, which takes the bytes from the `PacketEncoder` and gives them to the
-- transport. `CorePacketHandler` answers the core commands. `Packer` and `Unpacker` put values into a
-- packet and take them out, and `BusLog` sends log messages as packets. On the host a thread reads the
-- port, logs the messages and puts the responses into a queue; a caller writes a command and waits for
-- an entry of the queue.
--
-- Files and sources:
--   Base, Base/Tests, Base/Lists, Base/Runs, Base/Int: numbers, Boolean tests, lists as memory, `Run`,
--     the result of code that can fail an `assert` or use a null pointer (`abort`), and integers.
--   Crc8: `Crc8` of duino_util, which is not in the repository, as a parameter: a function of a byte
--     and one of a block, both with values in 0 to 255. Crc8/Poly: the CRC-8 with the polynomial 0x07,
--     for tests.
--   Packet: src/duino_bus/Packet.h, src/Packet.cpp. A method is a function from the packet to the new
--     packet; a `size_t` wraps at 2 ^ 64. `storage` is the caller's memory behind `m_data`.
--     Packet/Bounds: the invariant `IsValid`. Packet/View: the message that a packet stands for, and
--     the operations on messages that the methods implement. Packet/Push: appending one byte.
--     Packet/Operations: sequences of calls.
--   Encoder: src/duino_bus/PacketEncoder.h, src/PacketEncoder.cpp (`encodeStart` is `encode_start`,
--     `handleEscape` is `handle_escape`, `encodeByte` is `encode_byte`) and the loop of `writePacket`.
--     Encoder/Frame: the wire format. Encoder/Writes: what the loop writes. Encoder/States: the
--     invariant of a call. Encoder/Termination: how many rounds of the loop are left at a call.
--   Decoder: src/duino_bus/PacketDecoder.h, src/PacketDecoder.cpp (`decodeByte` is `decode_byte`), and
--     `feed`, the loop of tests/PacketDecoderTest.cpp. Decoder/Safe: the invariant of a call.
--     Decoder/Feed, Decoder/Frames: what a frame does to the decoder. Decoder/Sync: noise before a
--     frame, and the state after an error. Decoder/Lost: `receive`, a caller that reads on over errors
--     until a packet is received. Decoder/Stream: `decode_all`, a caller that reads on over
--     errors. Decoder/Ends, Decoder/Recovery: streams that bring such a decoder back to the idle state.
--   Words: 32-bit values as bytes, least significant first.
--   Packer, Unpacker: src/duino_bus/Packer.h, src/Packer.cpp, src/duino_bus/Unpacker.h,
--     src/Unpacker.cpp, on the bytes of the objects. A pointer into a packet is an index.
--   Values: a sequence of objects and strings, a caller that packs it and one that unpacks it.
--   PacketHandler: src/duino_bus/PacketHandler.h. A handler is a record of its two functions. What it
--     can change besides the response is the debug flags of its bus.
--   CorePacketHandler: src/duino_bus/CorePacketHandler.h, src/CorePacketHandler.cpp. The monitors of
--     duino_util and `mallinfo` are the parameter `Platform`. CorePacketHandler/Replies,
--     CorePacketHandler/Info: the responses. CorePacketHandler/Commands: the commands it takes.
--   Bus: src/duino_bus/Bus.h, src/Bus.cpp, over a parameter `Transport` for the virtual functions.
--     Bus/Read, Bus/Write, Bus/Handle, Bus/Names: `processByte`, `writePacket`, `handlePacket`,
--     `as_str`. Bus/Dispatch: `handlePacket` by the handler that takes the packet. Bus/Link: what one
--     bus writes, the decoder of another reads. Bus/Dump: `Packet::dump` of src/Packet.cpp.
--   BusLog: src/duino_bus/BusLog.h, src/BusLog.cpp. The formatter of duino_log is the list of the
--     characters that it hands to the callback.
--   PicoUsbBus: src/duino_bus/PicoUsbBus.h, src/PicoUsbBus.cpp, over a parameter `Tusb` for TinyUSB.
--   SocketBus: src/duino_bus/SocketBus.h, src/SocketBus.cpp, over a parameter `Os` for the system calls.
--     What an uninitialised socket variable holds is an argument. SocketBus/Outcome: how the set-up ends.
--     SocketBus/Lookup, SocketBus/Descriptors: which descriptors are open then, over any `Table`, in
--     which `socket` and `accept` give new descriptors and nothing but `close` closes one.
--     SocketBus/Address: `printAddrInfo`, by what it logs, over a parameter `Net` for the layout of
--     addresses in the system's headers.
--   LinuxSerialBus: src/duino_bus/LinuxSerialBus.h, src/LinuxSerialBus.cpp, over a parameter `Os` for
--     the system calls. LinuxSerialBus/Open: how `open` ends.
--   ArduinoSerialBus: src/duino_bus/ArduinoSerialBus.h, src/ArduinoSerialBus.cpp, over a parameter
--     `HardwareSerial`, with an `int` as a ℤ. ArduinoSerialBus/Read: `poll`, calls of `processByte`.
--   Wire: `writePacket`, packet after packet, at one end of a line and `decodeByte` at the other, as a
--     relation `Step` of single calls. Wire/Bytes, Wire/Owed: what is still to be written, and to be
--     read. Wire/Invariant: what every call keeps. Wire/Delivery: what arrives.
--   Exchange: two buses over a queue of bytes in each direction, a host's request and the response of a
--     device. Exchange/Poll: `processByte` until a packet has arrived. Exchange/Ping: a PING.
--   Host: the host's side in Python: duino_bus/packet.py, in Host/Decoder duino_bus/packet_decoder.py,
--     in Host/Encoder duino_bus/packet_encoder.py and `write_packet` of duino_bus/bus.py. An exception is
--     `abort`; the CRC function of crcmod is a parameter, `Agree` says that it is that of the device.
--     Host/Twins, Host/Alike, Host/Decodes, Host/Writes: the two sides call by call. Host/Reads,
--     Host/Sends: what one side writes, the other reads. Host/Failures: a port whose writes can fail.
--     Host/Tight: a packet of the host as one of a device. Host/Poly: the CRC of Crc8/Poly, for tests.
--   Host/Packer, Host/Unpacker: duino_bus/packer.py, duino_bus/unpacker.py. A slice past the end is
--     shorter, an index past it raises. Host/Values: a sequence of values packed at one side and
--     unpacked at the other; Host/Values/ToDevice, Host/Values/FromDevice, one for each direction.
--   Host/Bus: `IBus` of duino_bus/bus.py (`incoming_data_thread`, `process_packet`,
--     `send_command_get_response`), over a parameter `Port` for what a derived class implements. The
--     calls of `poll` are a sequence of what they report, and while a caller waits for its response the
--     thread is given such a sequence. An entry of `recv_queue` is a reference to the decoder's one
--     packet. Host/Bus/Thread, Host/Bus/Frames: the thread on a stream of bytes and on a frame.
--     Host/Bus/Responses, Host/Bus/Logs: frames that are responses, and log messages. Host/Bus/Ping: a
--     command to a device and its response.
--   Host/SerialBus: duino_bus/serial_bus.py, over a parameter `Serial` for a port of pyserial and what
--     `poll(0)` reports of it; it fills the interfaces `Port` and `IsQueue` of Host/Bus.
--   Host/SocketBus: duino_bus/socket_bus.py, over a parameter `Sockets` for the socket module.
-- The Tests module of a part has the theorems at concrete inputs and runs of the repository's tests.
--
-- What is logged is part of the results, as events (`LogEvent`); for a packet that is dumped, Bus/Dump
-- says what the logger is given. How the logger prints it is not modelled.
--
-- Bounds and fuel. A packet's capacity is below 2 ^ 63, as that of every C++ object, so that no sum
-- of two sizes wraps. The loops of `writePacket` and `write_packet` run on fuel, and the models
-- give them 2 * n + 6 rounds for n bytes of data: a frame has two ENDs and, for each of the n + 2
-- bytes between them, at most two bytes. In Exchange a bus polls once for each byte that is there,
-- and its decoder takes one in each call; in ArduinoSerialBus/Read once for each result of the port.
-- Every other loop is structural recursion.
--
-- Not modelled: the printing of bytes in LinuxSerialBus; of the Python package duino_bus/ what prints
-- (`dump`, `print_addr_info`, dump_mem.py); the sketch and the build files.
pub mod Base
pub mod Crc8
pub mod Packet
pub mod Encoder
pub mod Decoder
pub mod Words
pub mod Packer
pub mod Unpacker
pub mod PacketHandler
pub mod CorePacketHandler
pub mod Bus
pub mod BusLog
pub mod PicoUsbBus
pub mod SocketBus
pub mod LinuxSerialBus
pub mod ArduinoSerialBus
pub mod Values
pub mod Wire
pub mod Exchange
pub mod Host
