-- ===== src/Lib.antt =====
-- The network layer of the multiplayer mode of GTA Liberty City Stories and Vice City Stories for the
-- PSP, as reconstructed in C Reversed: how a value becomes bytes of a packet, how packets wait in the
-- queues of their groups, how they travel in datagrams, and how the elements of the game are kept alike
-- on all consoles by states and differences of states. The build that is modelled is the one for Vice
-- City Stories (neither GTA_LIBERTY nor MULTIGAME_ELEMENTS_COMPAT_IMPROVEMENTS is defined).
--
-- The program's parts. A client of the layer fills a packet: either one of the structs of
-- C Reversed/net/packet.h, or a stream to which C Reversed/elements/sSyncStream.cpp writes typed
-- values. It hands the packet to cNetSession (C Reversed/net/NetSession.cpp) with the number of a peer
-- group. SendMessage and SendMessagePriority append it to the group's queue. UpdateSend takes whole
-- packets from the queues into datagrams of at most 1400 bytes. The receiver walks over a datagram by
-- the size that stands in front of each packet and hands each to the game, which reads its values
-- back with a stream.
--
-- Above that stand the elements that the consoles share (C Reversed/elements) and the interest zones
-- that send them (C Reversed/InterestZone.cpp). A zone knows which frames each of its peers has
-- acknowledged. It chooses one that all have as the basis, has each element write its difference to
-- the state it had then, and cuts the whole into packets. The receiver reads each difference into a
-- copy of its own state of the basis, checks off the packets, and acknowledges the frame when all have
-- come.
--
-- Prelude: the libraries' names, tests on numbers, lists measured by native numbers, the integers and
-- their conversions, the bit operations as arithmetic, and single binary digits (Prelude/Digits).
--
-- Sync (C Reversed/elements/sSyncStream.cpp and .h). Sync/Types has the values. Sync/Reader is
-- sReadSyncStream: a state of the packet's bytes and two offsets, and a read is a function from it to
-- a value, or none after an early return of SYNC_STREAM_CAN_READ, and the next state. The assertion in
-- that macro is taken as it is without a debugger: the early return. Sync/Reader/Peek has the peeks and
-- Sync/Reader/Values the overloads that return a value, Sync/Writer is sWriteSyncStream with its buffer
-- of 32768 bytes. Sync/Reader/Decode is about what a read takes, Sync/Writer/Encode about what a write
-- appends, Sync/Codec about how the two fit type by type, Sync/Message and Sync/RoundTrip about rows of
-- fields, Sync/Reader/Bounds about the range of the cursor, and Sync/Faults about places where the code
-- does less than it means to. A float is its 32 bits: the streams never compute with it. base::string
-- is a library that the streams call: a parameter, StringLib.
--
-- NetSession/Groups (the peer groups of cNetSession): the list of cSendQeue is a list of records, and
-- each operation a function on it, with none where the code uses the nil pointer of an unknown group.
-- Order, Members, Effects, Create and Force are about the membership of peers; Send has the sends,
-- Delivery and Fifo what they do to the queues.
--
-- NetSession/Batch (PacketAppend, DispatchMessages, and the loop of UpdateSend over the broadcast
-- queue): Fitting, Dispatch and Broadcast. The game's dispatcher and HandleAckRecv are a parameter,
-- Dispatcher. Their loops are on fuel. A turn of PacketAppend
-- and of DispatchMessages skips a byte at least, so that as much fuel as there are bytes is enough. A turn
-- of the broadcast loop skips what PacketAppend copied, which may be nothing: Sending tells apart a loop
-- that still runs, one at an iterator past the end, and one that has ended.
--
-- NetSession/Window (HandlePacketRecv and the delivery loop of UpdateReceivePvt in NetSession.cpp): the
-- reliable part of a datagram has a number of 12 bits, and waits in the peer's ring of 32 slots until
-- all before it have come. Slots has the arithmetic of the ring, Store the ring as a map, Deliver the
-- delivery in order, Late what becomes of a repeated datagram. Tracks and
-- History have the receipt and delivery of any copies of what one sender sent, in any order. The delivery loop counts nCountA down,
-- which is its recursion. The addresses of peers are numbers, and the dispatch of a part of a datagram
-- and the acknowledgement are effects that the functions return. The look-up of the sender, the counts
-- of received bytes and the loop over the socket are not modelled.
--
-- NetSession/Reliable (AttemptSendPacket, HandleAckRecv, UpdatePendingSent and ClearPeerArray for one
-- peer): the ring of 47 entries of what was sent to it. Ring reads the ring as a list, newest entry
-- first; Ack, Send, Resend with Pending, and Clear say what each operation does to that list; Accounts
-- and Keeps are about what the requests count; High is about the eight bits of nSeq. The loops go round
-- the ring once at most, so that 47 turns of fuel are enough. The clock, and the threshold nPerfI that
-- comes from the statistics of the round trip, are arguments: the statistics are floating-point.
--
-- NetSession/Requests (the same operations over all peers of a session, the turn of UpdateSend that
-- makes a request, ConnectPeer, DisconnectPeer, DisconnectAllPeers and Reset): the state is the array of
-- peers and the queue of 48 requests they share. Owed adds up what the peers wait for, Link is the
-- invariant between that and the counts of the requests, Turn, Trim, Flow and Peers show that each
-- operation keeps it, and History has the operations in any order, as a step relation. The list of
-- peers to which a turn sends is an argument: it is the group of the queue, less those for which the
-- packet is empty. bSendOverflow, which the peer manager holds, is a field of the sender.
--
-- Peers (C Reversed/net/Peers.cpp and .h): the players, and with them the groups of NetSession/Groups,
-- which the manager changes. Membership is about connection and deletion, Team about the groups of the
-- teams and the last player, Latency about the ring of latencies, whose floating-point addition and
-- subtraction are parameters. The team of a player is an argument. What a peer owns in the game, its
-- name and the zones are not modelled.
--
-- Chat (C Reversed/net/GameChat.cpp and .h): the history, the line and the commands of the chat. Bounds
-- has the lemmas on the line and the commands, Use every order of events. The clock, tolower of the C
-- library and the functions that the commands call are parameters; what a function
-- does to the chat is a list of messages and closings, which depends on the time of the event as well as
-- on the argument. CanUseChatByGameState is true in the code. Drawing, sounds and the
-- pager are not modelled.
--
-- Packets (C Reversed/net/packet.h): Layout is the layout of a struct under pragma pack(1); Session,
-- Combat and World the members of the 66 structs by their numbers; Registry the constructor of
-- packet_id_list_t; Numbers and Catalogue what holds of the table.
--
-- Elements: Mask has the masks of bits that say which parts of a state follow, Section the writes
-- and reads that such a mask governs, Unset the reads that return a value, which go on after a short read
-- with what their variable held (the parameter unset), Types the comparison of two floats by their bits. Elements/Blip
-- (sRadarBlip), Elements/Pickup (sPickup), Elements/Physical (sElementPhysical) and Elements/Object
-- (sObject) are each CompareSyncState, PerformWriteSync, WriteSyncDelta and ReadSyncFromStream of the
-- file of that name in C Reversed/elements, with Delta, and Agreed, about what the other side makes of
-- what is sent. The comparisons of two vectors belong to the game engine and are parameters: vector_ne is
-- != of two CVector, beyond the test of the square of a distance against a bound. The flag of the
-- vanilla device is an argument.
--
-- Elements/History (sElement.cpp): the received states m_vSync and the worked-out states m_vSyncB are
-- lists of entries with a time, an address and the state. The virtual operations on a state are a
-- parameter, SyncOps. A time is a number below 2 ^ 16, and a comparison of times is written out as the
-- source makes it: minus_16 and before are the signed difference of 16 bits, ltb and leb the unsigned
-- ones. Base is about GetSyncWithTime2, Find is FindSync, and Find/Again about asking it twice.
--
-- Zone (cInterestZone of C Reversed/InterestZone.cpp and .h): the state is the peers with their
-- acknowledged frames, the elements by their addresses, the removed elements, and what is to be
-- acknowledged. Basis is the first half of SendGameState, Split the second; Receive is ReceiveGameState,
-- whose reading of the elements is an argument, a function of the
-- stream that says whether it came to the end. Where the packet is cut short within its head, the reads
-- go on with what their variables held: the parameter unset. A shift
-- by 32 places and more, which the language leaves open, is a parameter, wide. Common has the
-- intersection of two lists of frames, Order what every sequence of calls keeps true, Split/Whole and
-- Split/Removals what the packets of a state hold and how long a removal is said, Receive/Fragments
-- and Receive/Stale what becomes of the packets of a state. The time budget of SendGameState, which is
-- floating-point, and the group that a packet goes to are not modelled.
--
-- Not modelled: the sockets and the handshake of a connection; what the elements do to the entities of
-- the game, the differences of vehicles, peds, players and text, the events and the script natives, which
-- call the engine of the game; C Reversed/net/emu, LUA 5.0.2 and the decompiled scripts, which come from
-- elsewhere.
pub mod Prelude
pub mod Sync
pub mod NetSession
pub mod Packets
pub mod Peers
pub mod Chat
pub mod Elements
pub mod Zone
