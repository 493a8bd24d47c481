-- ===== src/Lib.antt =====
-- A verification library for the programs of this repository: small stand-alone C programs, each of
-- which is a component of its own, the server of socket/monitor, and the relay of socket and io,
-- both in C++. The C programs share macro.h
-- (the fixed-width names u8, u32, the logging and main macros) and nothing else; the parts of the
-- server and those of the relay call one another, and stand in the modules below Monitor and Relay.
--
-- NameCodec (trivial/name_codec.c) turns Chinese family names into the characters of a magnet link.
-- NameCodec.Utf8 has utf8_encode and utf8_decode over byte lists (a pointer p with its end e is the list
-- of the bytes between), NameCodec.Stream the cursor over them, NameCodec.Tables the two static tables
-- entry by entry, NameCodec.Search pair_cmp and the C library's bsearch over the sorted table, and
-- NameCodec.Main the loop of main with its buffer of 512 characters, where a store past the buffer is
-- an outcome of its own. The loop runs on fuel, one round for each byte of the argument and one more,
-- and is proved to end within it. The constructor that builds the tables when USE_STATICMAPPING is not
-- defined, with its dump functions, is compiled out and not modelled.
--
-- Base64 (codec/base64.c): Base64.Tables has base64_table and base64_rtable as base64_table_init fills
-- them, Base64 the group functions and the two loops. A C string is the list of its bytes before the
-- NUL. Whether malloc gives a block is a parameter of base64_decode; base64_encode does not test for it,
-- and is modelled given its block. Base64.Groups, Base64.Shape and Base64.RoundTrip hold the proofs.
--
-- RingBuffer (trivial/ring_buffer.c): the ring of preallocated blocks and the window of weights.
-- RingBuffer.Layout has the addresses of the blocks, RingBuffer.History the invariant that ties a window
-- to the weights it was given, RingBuffer.Sum the sums. An addition that leaves the
-- range of int has no result. The releases, which free and clear, are not modelled.
--
-- QuorumVote (trivial/quorum_vote.c): the one pass majority vote.
--
-- IdDecoder (string/id_decoder.c): IdDecoder.Table has the reverse table as the constructor fills it, and
-- keeps the stores outside of the array apart; IdDecoder has id_decode, check and main, in which a read
-- outside of the array ends the run; IdDecoder.Value and IdDecoder.Names hold the proofs.
--
-- Arp (socket/arp-demo.c): Arp.Packet has the request that send_arp builds, by the offsets of its headers,
-- and read_arp; Arp the queries of get_if_info, bind_arp and test_arping. The system calls are a record of
-- functions of the calls made so far, which the model keeps as a list, so that any behaviour of the kernel
-- is covered. The loop of test_arping, which has no bound, runs on fuel, and is shown to end with the
-- first reply on any larger fuel. Arp.Descriptors and Arp.Waiting hold the proofs. A failing socket
-- returns -1, here none. What arp_fd holds where it is read unset is a
-- function of the calls as well. format_ip4 is never called and not modelled.
--
-- Dns (socket/dns-demo.c): Dns has name_encode and ChangetoDnsNameFormat, which write a dotted host as
-- labels behind their lengths, name_decode, which is the way back, and read_name, which collects a name of
-- a packet over its compression pointers. A pointer into a name is known by the bytes from it on, one into
-- a packet by its index. The loops run on fuel: name_encode is given enough for every host; the theorems
-- say how much name_decode and read_name need. Dns.Encode, Dns.Decode, Dns.Collect and
-- Dns.Answers hold the proofs; fuel of 600 is enough for the names of Dns.Answers.
-- Dns.Older has ReadName and its proofs. Dns.Records has the loop over the answers of a
-- response in ngethostbyname, with the 20 places for answers and the four bytes of their data, and its
-- proofs. The query, the other sections of a response and the printing are not modelled.
--
-- Monitor (socket/monitor): Monitor.Message has Packer, Unpacker, the messages and MsgRaw of message.h and
-- message.cpp. An int is four bytes and a double eight, the lowest first. A copy from a range that runs
-- backwards is an outcome of its own. Monitor.Heartbeat has the Heartbeat of listener.h and listener.cpp,
-- in whole nanoseconds for doubles of milliseconds. Monitor.Listener has the Listener with its Reader and
-- Writer: a round of run, and what Ping, Work and runOnLoop do to it from other threads, each as one step.
-- The events of poll, what accept returns, the bytes that arrive, which writes succeed, and what a closure
-- does are a record of the round. The limit of an event descriptor's count, at which a write waits, is
-- left out, as are logging, the constructor and destructor, runAfter and the timer posts before the loop.
-- Monitor.Runner has IdManager and TaskRunner of runner.h and runner.cpp, with post in its two steps, so
-- that threads may come between. Monitor.Timers has the setting of a timer (timer.h, timer.cpp) and
-- tRunner, its heap as a list in the order in which tasks are taken from it; a round takes a list of the
-- calls that are made while its tasks run. What a task does, its hooks, and the starting and joining of
-- threads are not modelled. The children of each module hold its proofs. Monitor.Coordinator has the
-- TimeWheel of time_wheel.h and the heartbeats of examples/coordinator.cpp, where a shared_ptr is known by
-- the number of its object. Monitor.Forwarder
-- has the followers and clients of examples/forwarder.h and forwarder.cpp, as the callbacks of the poll
-- change them, one at a time. The sockets, files and processes of socket/monitor, and its other examples,
-- are not modelled.
--
-- ClipVarchar (codec/clip_varchar.c): the byte reader, by the bytes it has left, and the three copies of a
-- column. What a copy stores and what it leaves are a record; a read of a count below zero is an outcome
-- of its own. ClipVarchar.Columns holds the proofs.
--
-- Relay: a collector (socket/collector.h, collector.cpp) turns the datagrams of multicast groups into
-- frames and sends them to a notifier (io/notifier.h, notifier.cpp), which gives their texts to the
-- consumers of their topics. Relay.Text has the C library's text functions that the codec calls, Relay.Codec
-- codec.h and codec.cpp, where a text that overruns its buffer of 64 bytes is no result, Relay.Secure
-- secure.h and secure.cpp, with the random mask as an argument and the loop on fuel for its fifteen turns,
-- Relay.Notifier the topics, registration and publication, Relay.Reader the notifier's side of the
-- connection, where the pipe is the list of its bytes, Relay.Collector the two threads of the collector, a
-- step each, Relay.Link its connection and the timer, Relay.Ports the ports on its command line,
-- Relay.Topics parseTopic, where an array that is overrun and a value that was never stored are outcomes,
-- Relay.EndToEnd the way of a message through all of it, and Relay.Logger logger.h and logger.cpp. A consumer
-- is known by the number of its allocation, a table of topics is a list of rows. The threads' critical
-- sections are steps that come in any order. Sockets, epoll, the database and the threads' starts and ends
-- are not modelled. The children of each module hold its proofs.
--
-- CmdBuffer (trivial/cmd-buffer.c): the ring of two commands, each known by its pointer. CmdBuffer.Order has
-- the order of the polls, CmdBuffer.Owners what becomes of each command.
--
-- DdlConv (string/ddl_conv.c): a line of a table's definition, as the bytes of the memory from its first
-- word on; where a loop leaves the memory, or memcpy copies within
-- overlapping ranges, there is no result. DdlConv.Types has the proofs on the type of a column, DdlConv.Lines
-- those on its name and the line.
--
-- BitCount (builtin/ctz.c, builtin/popcount.c): __ctz, __ctz2 and count_set_bits on 32-bit words; the loop of
-- the last runs on fuel for 33 rounds. BitCount.Trailing and BitCount.Sum hold the proofs.
pub mod Arp
pub mod Base64
pub mod BitCount
pub mod ClipVarchar
pub mod CmdBuffer
pub mod Common
pub mod DdlConv
pub mod Dns
pub mod IdDecoder
pub mod Monitor
pub mod NameCodec
pub mod QuorumVote
pub mod Relay
pub mod RingBuffer
