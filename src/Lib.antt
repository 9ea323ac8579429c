-- ===== src/Lib.antt =====
-- A verification library of the iPod Accessory Protocol stack: the packets, their carriage in HID
-- reports, the commands and their registry, the general, digital audio, display remote, extended
-- remote and simple remote lingoes, the program that puts them together, its view of the phone, and the
-- traces of transfers.
--
-- How the program's parts stand on each other. An accessory's bytes come from a character device as
-- HID reports (hid/report_transport.go), which the decoder of hid/hid.go puts together to frames. A
-- frame holds packets (packet.go), each with a checksum (crc.go); the loop of cmd/ipod/main.go reads
-- them out. A packet's payload is a command (cmd.go): a command id (lingo.go), a transaction where
-- transactions are on, and a payload of the type that the registry of lingo.go has for the id. The
-- handlers of the lingoes answer a command by commands, which go the same way back. Between frames the
-- program tells the other side of the phone's tracks and states, as far as that asked for them; it
-- knows these from avrcp/avrcp.go. trace/trace.go writes transfers to a text and reads them back.
--
-- The files and what they model:
--   Base            shared names: Boolean tests on numbers, lists, and Go's (value, error) pairs as
--                   `Result`, with run-time panics
--   Slices          Go's slices with the spare capacity behind them, which reslicing can reach
--   Wire            encoding/binary on structs of unsigned integers in big-endian order; a struct
--                   with a slice or an interface in it has no size and is refused, as in Go
--   Checksum        crc.go
--   Packet          packet.go, and the loop of processFrames in cmd/ipod/main.go over a frame
--   Hid             hid/hid.go, hid/report_def.go, hid/report_transport.go
--   Carriage        packets through frames and reports to the other side
--   Trace           trace/trace.go: messages and their lines, readers, writers, the two-way queue
--   Text            util.go, with the UTF-8 sequences that it looks at
--   Lingo           lingo.go: command ids (Ids) and the registry of types (Registry)
--   Command         cmd.go: the serde, the transaction counter, Respond and Send; it takes the
--                   payload types of a lingo as the record `Payloads`
--   Audio           lingo-audio: payloads, their registration, the handler
--   DispRemote      lingo-dispremote: payload structs (Payloads, Structs, Info, TrackInfo), their
--                   codecs and registration (Codec), events (Notify) and the handler (Handler)
--   ExtRemote       lingo-extremote: payload structs (Payloads, Structs, Values), codecs and
--                   registration (Codec), notifications (Notify), the phone and what is asked of
--                   it (Device), and the handler (Handler)
--   SimpleRemote    lingo-simpleremote: button states in as few bytes as they take (Buttons), the
--                   payloads and their registration (Payloads)
--   General         lingo-general: the identification tokens (Tokens) and their lists (TokenLists),
--                   payload structs (Payloads, Types, Structs, Values), codecs and registration
--                   (Codec), acknowledgements of tokens (Acks), the device's interface (Device) and
--                   the handler with its buffer for a certificate (Handler)
--   Session         sendCmds and the reading of frames' commands in processFrames, cmd/ipod/main.go
--   Gadget          cmd/ipod: the lingoes in one registry (Payloads), the device of the general lingo
--                   in general.go (Device), handlePacket and the handling of a frame (Packets), and
--                   the loop of processFrames over its events (Events)
--   Avrcp           avrcp/avrcp.go: what is known of the phone (State), and how MediaControl, refresh
--                   and fetchTrack change it (Refresh); what busctl answers is an argument
--
-- How the code is translated. Numbers are natural numbers, and a machine integer's wrap-around is
-- written out where the code can reach it. A method that changes its receiver is a function from the
-- old state to the new one and the results. A reader is the list of what its calls will return; a
-- report writer is a function on its own state. An interface{} payload is a data type with a
-- constructor for each struct, and the reflect.Type of a struct is its zero value. A bufio.Scanner is
-- the list of its lines and its final error. A list element of the trace queue is named by a number
-- that no other item has. A device of the display remote, which may be nil, is an optional record of
-- what its methods answer while one request is handled, and the clock is a record of the date. What a
-- case of the `select` in processFrames receives is an event, and an order of the cases is a list of
-- events; the retries of RequestIdentify, which a goroutine of its own sends, are events among them.
-- The device of the general lingo is a record of its methods over a state of its own; what the
-- program's device asks of crypto/rand, of encoding/base64 and of the cached name of the phone is an
-- argument. A panic in a codec or a handler ends the program: it is a result of its own, and no later
-- command is read.
--
-- Fuel. `read_packets` takes as much fuel as the frame has bytes, and one; `write_frame` takes one
-- more than the frame's bytes; `dir_read` takes one more than the lines: each round but the last takes
-- at least a byte, a payload of a byte, or a line. UTF-8 loops take as much as there are bytes.
--
-- Not modelled: logging, the command line, dumpTrace, the opening of devices, the search for the
-- phone's name and the sample rates of BlueALSA in cmd/ipod; the calls of busctl and the goroutines of
-- avrcp, whose operations come one after the other; that retries may be written between the frames of
-- one answer; the String methods, and DumpLingos, which make text for logs; and the fields of a
-- message that Go leaves half-written behind an error which its callers return at once.
pub mod Base
pub mod Slices
pub mod Wire
pub mod Checksum
pub mod Packet
pub mod Hid
pub mod Carriage
pub mod Trace
pub mod Text
pub mod Lingo
pub mod Command
pub mod Audio
pub mod DispRemote
pub mod ExtRemote
pub mod SimpleRemote
pub mod General
pub mod Session
pub mod Gadget
pub mod Avrcp
