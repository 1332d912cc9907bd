-- ===== src/Lib.antt =====
-- A BitTorrent client and its tracker, in C: bencoding, the tracker's protocol on both sides, the
-- peer wire messages, the handshake, bitfields, the pieces of the file, the state of a connection,
-- the start of the client and its event loop.
--
-- The tracker (src/tracker_serv.c) keeps a linked list of addresses. A client connects, sends "list"
-- (src/tracker.c), is registered, and gets the addresses of the others; it then connects to each of
-- them, exchanges handshakes and bitfields, and goes on with messages (src/btp.c). What is to be
-- downloaded stands in a bencoded file (src/bencode.c).
--
--  Prelude/       numbers and tests, lists, blocks of memory, results, bits, int bytes, decimals
--  Sockets.antt            configure_socket, client_socket_wrapper of src/util.c, configureSocket
--  Tracker/Clients.antt    the client list: addIfAbsent, destroyClientList
--  Tracker/Message.antt    buildMsg, sendMsg, sendData, recvMsg
--  Tracker/Reply.antt      sendClients
--  Tracker/Peers.antt      requestPeers, joinTracker, and the copy of the peers in src/torrent.c
--  Tracker/Server.antt     main of src/tracker_serv.c, as a function of the accepted connections
--  Tracker/Tests.antt      src/tracker_tests.c
--  Wire.antt               the message constructors and get_next_msg of src/btp.c
--  Handshake.antt          construct_handshake, verify_handshake, Verify_handshake of src/btp.c
--  Bitfield.antt           the counts of src/util.c, peerContainsUndownloadedPieces of src/btp.c
--  Connection.antt         Connections of src/btp.h; Set_Flag and the Send_ functions of src/btp.c
--  Pieces.antt             src/file_constructor.c, and get_piece_from_file of src/btp.c
--  Torrent.antt            the lengths and constants of main in src/torrent.c
--  Torrent/Messages.antt   its answer to a message
--  Torrent/Connecting.antt its phase that connects to the peers
--  Torrent/Loop.antt       its count of pieces, accepting, and the visits to the entries of fds
--  Torrent/Main.antt       main behind decodeFile, up to its loop
--  Torrent/Rounds.antt     the loop as a state machine: poll, and the visits of a round
--  Swarm.antt              the tracker and its clients together
--  Torrent/Receive.antt    what it does with received bytes
--  Torrent/Writable.antt   what it does when a socket can be written to
--  Bencode/Node.antt       be_node of src/bencode.h, be_str_len
--  Bencode/Cursor.antt     the place in the input, strtoll, _be_decode_int
--  Bencode/Decode.antt     _be_decode_str, _be_decode, be_decoden, be_decode
--  Bencode/Ends.antt       the decoder on inputs that need not be encodings
--  Bencode/Free.antt       be_free, on a heap of blocks
--  Bencode/Info.antt       bt_info_t, _read_file, load_be_node and decodeFile of src/bencode.c
--  Bencode/Dump.antt       be_dump of src/bencode.c
--  Bencode/Print.antt      the encoding that the decoder is held against
--  Threads.antt            a handler thread of examples/tracker/tracker2.c: handler, addClient, sendClients
--  Threads/System.antt     its main and the threads, interleaved
--  Threads/Serial.antt     what is promised for commands that do not overlap
--  Threads/Session.antt    what is told of connections and commands from the start on
--  Threads/Turns.antt      whether two threads are inside of addClient
--  Threads/Start.antt      its main from the listening socket on
--  Threads/Client.antt     examples/tracker/client.c: requestPeers and the loop of main
--  Encode.antt             src/encode.c, which writes metainfo files
--  Printing.antt           print_bits and print_hex_memory of src/util.c
--  Examples/               runs on small inputs
--
-- A block of memory is the list of its bytes; reading or writing outside of it, or through NULL, is
-- the result `undefined`, and exit(n) the result `exits n` (Prelude/Control.antt). What malloc
-- leaves in a block is a parameter, `fresh`; so is what stands behind an address that is copied with a
-- fixed length, `heap`: such reads past the block of a short text are taken for
-- reads of bytes that are there; SHA1 is a parameter too. What send and recv do is an argument. Integers are
-- natural numbers: an int is its bit pattern below 2 ^ 32 where its bytes matter, a char its bit
-- pattern below 256, a long long an integer. Blocks that are not freed are not counted, and malloc
-- does not fail.
--
-- Loops over lists and counts are structural. Three functions take fuel: the bit count of one byte,
-- which has 9 rounds and needs at most 8; the decoder, whose fuel is one for each node, element and
-- entry on the way down, and for which more than twice the length of an encoding is enough, and
-- three for each byte and two more on other inputs (each of them takes a byte, or an entry one of
-- the words that are not NULL); and the hashing of pieces, which has a round more than the file has
-- bytes, where each but the last round takes 256 bytes. The event loop takes one
-- step for each given event: a call of poll, or a test of the condition of its inner loop.
--
-- The tracker of examples/tracker/tracker2.c is another one: a thread for each client, and a table instead of
-- a list. The threads share the table, its count and the arguments in the frame of main. A step of a
-- thread is one access to these, but for a round of the loop in sendClients, and the steps of main and
-- of the threads come in any order. That a data race is undefined in C is passed over, and so is that
-- args is out of scope between two rounds of main's loop, where it keeps its place. inet_ntoa has one
-- buffer for its texts, at the address `ntoa`.
--
-- Not modelled: src/torrent_client.c and src/torrent_main.c, which are not built (one holds unresolved
-- merge conflicts, the other does not compile); the copies in torrent_encoding_decoding; the other examples,
-- which are by others or trials that src has taken up; and main of examples/tracker/client.c before its
-- loop, which copies a line through a pointer that was never assigned.
mod Prelude
pub mod Sockets
pub mod Tracker
pub mod Wire
pub mod Handshake
pub mod Bitfield
pub mod Pieces
pub mod Connection
pub mod Torrent
pub mod Bencode
pub mod Swarm
pub mod Threads
pub mod Encode
pub mod Printing
mod Examples
