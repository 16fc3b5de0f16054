-- ===== src/Lib.antt =====
-- IOCP_Model_Server: TCP servers on Windows completion ports, and the chat server on top of them.
--
-- The program. A client's bytes arrive in the receive ring of its session (MyLibrary/RingBuffer). The
-- worker thread that gets the completion cuts messages out of the ring (RecvProc of
-- NetworkLibrary/CNetServer/CNetServer/CNetServer.cpp), decodes each one in a packet
-- (MyLibrary/PacketBuffer) and calls OnRecv. The chat server (ChatServer_SingleThread) queues what it
-- gets as jobs, and one contents thread handles the jobs: it keeps the players, the accounts and the
-- sectors of the map, and answers through SendPacket, which seals a packet and sends it.
--
-- The files.
-- - Base and its children: shared names, Boolean tests, functions changed at a place, lists measured
--   by native numbers, byte ranges, memcpy on byte arrays and the bits of `^`.
-- - Fifo: what a byte ring promises, as a bounded queue of bytes and its replies to calls.
-- - Ring: the class RingBuffer, one function per method. Ring/Contents says what a ring holds,
--   Ring/Write, Ring/Read and Ring/Direct are about the operations, Ring/Run about sequences of calls.
-- - Packet: the class Packet, one function per method. Packet/Field has operator<< and operator>>,
--   Packet/Codec the loops of Encode and Decode, Packet/Header the two headers and the sealing of a
--   packet, Packet/Valid and Packet/Data what the operations do to a packet's contents.
-- - Server/NetRecv: RecvProc of CNetServer up to RecvPost, on the ring of the session; its children
--   follow a round of the loop, the loop, and messages that no client of the program sends.
-- - Server/LanRecv: RecvProc of NetworkLibrary/CLanServer/CLanServer.cpp, up to the next receive.
-- - Server/Session: the count of the references to a session and its release flag, as steps of threads
--   (AcquireSession, ReturnSession, ReleaseSession and AcceptThreadMain of CNetServer).
-- - Server/Sessions: the places and the numbers of sessions (Start, AcceptThreadMain, AcquireSession and
--   ReleaseSession of CNetServer). Server/Sessions/Acquire is about who finds a session by its number.
-- - Server/Sending: SendPacket, SendPost and SendProc of CNetServer as steps of threads that share a
--   queue and a flag. Server/RecvPost: the buffers that a receive is posted with, in both servers.
-- - Stack: Push and Pop of MyLibrary/LockFreeStack.h as steps of threads on linked nodes. Stack/Linked
--   has the invariant, Stack/Push and Stack/Pop the steps, Stack/Follows the stack of values behind them.
-- - Pool: MyLibrary/LockFreeMemoryPool.h, and Pool/Cache MyLibrary/LockFreeMemoryPoolTLS.h. Pool/Seg and
--   Pool/Stacks are about linked blocks, Pool/Held says where each block and chunk is, Pool/Listed which
--   chunks the shared pool lists, Pool/Blocks, Pool/Chunks, Pool/Moves and Pool/Grown are one change
--   each, and Pool/Allocated, Pool/Freed, Pool/Created and Pool/Ends are about whole calls.
-- - Chat: the state of ChatServer, with ProcessAccept, DisconnectPlayer and CheckTimeout.
--   Chat/Sectors has ProcessRelease and the moves between sectors, Chat/Sectors/Timeout whom
--   CheckTimeout disconnects, Chat/Packets the handlers of packets and HandleJob, Chat/Reach the
--   states that the contents thread comes to.
-- - Echo: OnRecv of NetworkLibrary/CLanServer/EchoServer.cpp.
-- - The modules called Tests run the definitions on concrete data.
--
-- The correspondence. A class is a record with its fields, and a method is a function from the
-- record to its result and the new record, named as in the source in the library's spelling. Arrays
-- are lists of bytes. A result `none` is a fault: an access outside an array or a vector, or an `int`
-- that overflows. A pointer to a player is an address in a heap that is a function; what a memory
-- pool hands out, the value of `rand`, the time and the bytes of memory that is not written yet are
-- arguments. What the system does on a receive is a hypothesis, `Received` in Ring/Direct: the bytes
-- go to the free places in order and to no others.
--
-- A step of Server/Session is one interlocked operation, and the steps of the threads come in any
-- order; fewer than 2^31 - 3 references exist at a time. A step of Server/Sending or Stack is one access
-- to what threads share. Components that build on another take its calls as one step: the queue in
-- Server/Sending, the stack of places in Server/Sessions, the nodes' pool in Stack, and PushChunk and
-- PopChunk in Pool, which have the same exchange with a tag as the stack.
--
-- Bounds and fuel. `unsigned char`, `unsigned short` and 64 bit times wrap as written. Sizes of type
-- `int` are not negative in any call of the program, and are natural numbers here. A ring's size is
-- below 2^30, so that a sum of two positions fits in an `int`. The loop of RecvProc runs on fuel, and
-- one round more than there are bytes in the ring is enough, since a round that goes on takes five.
-- The loop of the destructor of a thread's cache runs on fuel, and its number of chunks is enough. A tag
-- of 17 bits tells exchanges of `_Top` apart as long as fewer than 2^17 of them succeed while a Pop waits
-- for its own; the steps of Stack say so. Session numbers have 48 bits for the generator, and fewer than
-- 2^48 sessions are accepted. The memory that the pools get from the system does not overlap. GetTickCount64
-- does not go back, and is below 2^64.
--
-- Not modelled. Stop, the threads, events, sockets and the completion port are calls of the system, and
-- of Start only the sessions are there. The queue LockFreeQueue, the echo server in Echo/EchoServer and
-- the statistics of the pools are not modelled. The ring's lock and the reference counts of packets in
-- flight are left out of the models of their users. SetNetHeader tests and sets the flag of a packet in
-- two steps, so threads that send the same packet at once can seal it twice; Packet/Header/Roundtrip
-- has the case that one thread seals after the other although it tested the flag before, and no step
-- inside the loops of two threads that code the same bytes. The handlers of the chat server have one
-- thread, and the packet that they send to many sessions is sealed by the first SendPacket.
pub mod Base
pub mod Chat
pub mod Echo
pub mod Fifo
pub mod Packet
pub mod Pool
pub mod Ring
pub mod Server
pub mod Stack
