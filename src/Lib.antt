-- ===== src/Lib.antt =====
-- Verification of the protocol codecs and state machines of Bolt API.
--
-- The library follows the parts of the program that turn bytes from a peer into state:
--
-- * Quic models include/boltapi/quic. Varint (varint.h) and PnSpace (pn_space.h) are the number
--   codings of a packet; Frames (frames.h) the STREAM, CRYPTO, ACK and CONNECTION_CLOSE frames on
--   top of them; Ack (ack.h) the record of received packet numbers, whose build_ack_frame makes an
--   ACK frame that the peer's process_ack (connection.h) walks over; Stream (stream.h) both halves
--   of a stream: Receive puts frames in order over a ring, Send keeps bytes for retransmission;
--   Recovery (loss.h) the congestion window, the RTT estimate and the ring of sent packets;
--   Robustness (robustness.h) what an endpoint does before it trusts an address. Its record Crypto
--   is the cryptographic library, with what the code relies on as IsCrypto.
-- * WebSocket models src/http/websocket_parser.cpp (Frame, Utf8, Close) and the connection of
--   src/http/websocket.cpp that runs on it: Sender is its state and what it sends, Connection what it
--   does with received bytes.
-- * Http2 models the state machine and the flow-control windows of src/http/http2_stream.cpp
--   (Stream) and the frame codec of src/http/http2_frame.cpp (Frame): its parsers, the writers that
--   return a vector (Write) and those into a buffer of the caller (WriteTo). Frame.Layout joins them
--   as a connection uses them: one writer and one parser for each type of frame. Integer is the
--   integer coding of src/http/hpack.cpp.
-- * Webrtc models the rollover counter and the replay window of include/boltapi/webrtc/srtp.h
--   (Replay); what the cryptographic library makes of a packet is an argument.
-- * Prelude holds what they share: the Boolean tests, lists measured by native numbers, bit
--   operations and bytes.
--
-- How the code is read. A function of the code has its name here, and a class is a record of its
-- fields without the trailing underscore; an operation takes the record and returns it. A pointer
-- with a length is the list of the bytes it points at, and a parser returns the bytes that are
-- left or the number it consumed. Numbers are natural numbers with the wrap-around of uint64_t
-- written out where the code's guards do not exclude it; an int32_t is its 32-bit pattern. A ring
-- of 256 KiB is a function from indices to bytes, and so is the ring of sent packets to its slots.
-- The callbacks of a WebSocket connection are a log of events. Asserts are hypotheses of the
-- theorems, or part of the invariants proved.
--
-- Loops are structural recursion, or recursion on fuel: the absorb loop of an extent set has the
-- rounds of the code; validate_utf8 and the loops of unmask have a round for each byte, and each
-- round takes one at least; the loop of feed has the rounds of the code, and so has that of
-- send_frame for a fragment_size above 0; encode_integer has ten rounds, which write 70 bits.
--
-- Not modelled: cryptography and TLS (library calls), the connection's packet dispatch and timers,
-- the choice of lost packets, HTTP/1, the HTTP/2 connection, the tables and strings of
-- HPACK and all of QPACK, the database protocols, and of WebRTC all but the replay window; sockets,
-- coroutines and locks. Of class Stream, each half keeps the part of flow_ that it uses, and
-- release, which resets both, is left out.
pub mod Prelude
pub mod Quic
pub mod WebSocket
pub mod Http2
pub mod Webrtc
