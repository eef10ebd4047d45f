-- ===== src/Lib.antt =====
-- Verification of osa_base, a C library that hides the operating system from embedded programs:
-- blocking queues, semaphores, pools of buffers, messages, mailboxes and tasks, events, profiling and
-- linked lists over pthreads, pipes, and servers and clients over sockets.
--
-- The parts, the files that model them, and the code (paths from the repository's root):
--   Monitor, Place    the loop `while(1) { if(guard) ... else pthread_cond_wait }` that osa_que.c,
--                     osa_msgq.c and osa_sem.c in osa/src share, and the place of a structure in the
--                     state that the threads share. Monitor/Laws has what the loop guarantees,
--                     Monitor/Simulation two such loops over different states
--   Ring, Que         osa/src/osa_que.c and osa/inc/osa_que.h. Ring holds the statements under the two
--                     guards, Ring/Invariant and Ring/Fifo the ring as a list of values; Que the
--                     functions, Que/Waiting one call among other threads, Que/Traffic calls that
--                     wait for each other, against a bounded list, Que/Observers what a queue says of
--                     itself
--   Sem               osa/src/osa_sem.c: counting semaphores
--   Buf               osa/src/osa_buf.c: two queues of buffer numbers. Buf/Pool has the invariant that
--                     each number is in one place, Buf/Pool/Moves the steps of the threads,
--                     Buf/Pool/Safety what every reachable pool has, Buf/Fresh OSA_bufCreate,
--                     Buf/Switch the exchange of a buffer for another
--   Memory, OsaList   osa/src/osa_list.c and osa/inc/osa_list.h: linked lists of `void *` over a
--                     memory of nodes and heads at addresses. OsaList/Chain says which list a memory
--                     holds; Push, Pop, Erase and Release treat the operations of those names
--   Msgq, Mbx         osa/src/osa_msgq.c and osa/src/osa_mbx.c: messages in memory, queues of them,
--                     and mailboxes that wait for acknowledgements. Msgq/Steps has the calls at known
--                     queues, Mbx/Exchange a message and its acknowledgement, Mbx/Flush the loops of
--                     OSA_mbxFlush and OSA_mbxWaitCmd, Mbx/Broadcast a message to several mailboxes
--   Tsk               osa/src/osa_tsk.c: threads that run a function on the messages of a mailbox
--   Pipe              osa/src/osa_pipe.c: pipes of the system with counts of messages
--   Event             osa/src/osa_event.c: flags that threads set and wait for
--   Prf               osa/src/osa_prf.c: minima, maxima and sums of measured times and values
--   File, Clock       osa/src/osa_file.c, and osa/src/osa.c with osa/inc/osa.h: files over streams, the
--                     clock, delays and signals
--   Thr               osa/src/osa_thr.c and osa/src/osa_mutex.c over pthreads
--   Socket            socket/osa_socket.c. Socket/Send and Socket/Receive have the two loops,
--                     Socket/Options the functions that make and set up sockets, Socket/Open sending
--                     on a connection that always takes something, Socket/Loopback a concrete one
--   Communication     communication/osa_communication.c and communication/osa_communication.h.
--                     Communication/Head has the heads and their bytes, Communication/Message a
--                     message from one end to the other, Communication/Server the thread of a server
--                     for a client, Communication/Accept the list of clients and the thread that
--                     accepts them, with Accept/Miscount for a client without a node in the list,
--                     Communication/Client the thread of a client, Communication/Heart its heartbeat,
--                     Communication/Life how both sides begin and end.
--                     Communication/Stream has frames: Stream/Frames how one gets to the buffers of a
--                     client, Stream/Sender the thread that sends them, Stream/Receiver the client
--                     that receives them, and Stream/Broadcast the way from one to the other
--   Base              the numbers, lists and tests that all of them use
--
-- How the state corresponds. A struct is a record with the members of the struct, without the
-- mutexes and condition variables, which carry no data: a branch between taking the lock and
-- letting it go or waiting is one step. A `Uint32` is a native number, reduced by `% 2 ^ 32` where
-- the code can reach the end of it. An `int` is an unbounded ℤ; the counts that are stored in one
-- stay far below `2 ^ 31`. A status is an ℤ, `sok` = 0 and `efail` = -1. A pointer is a number with 0
-- for NULL; reading or writing what is not held, and a second `free`, is a `fault`.
--
-- Connections. What select, send and recv do is a record `Sock`, a parameter with what their manual
-- pages promise as laws: a connection has the bytes that the system took from the program and those
-- that it will give it. A byte is a number; an `int` in a head has four, the lowest first, and the
-- struct no padding. `Prompt` says that recv gives a byte where there is one, `Ends` that a read
-- behind the last byte finds the end, `Open` that select finds room and send takes a byte; theorems
-- that need them name them. The threads of a server and a client take what the other threads and the
-- system do at each round as a list. The block that a
-- long message is received in is not freed in the model. Descriptors that a thread gives to close,
-- and messages that it gives to a callback, are kept in lists.
--
-- Threads. A call takes the list of what the other threads do at each of its waits, functions on the
-- shared state, as many as there are wake-ups, spurious ones too. It returns with the wake-ups that
-- are left, is `waiting` when they are used up, or is `stopped` by undefined behaviour or a failed
-- OSA_assert. A theorem of progress says which wake-up lets a call return. In Que/Traffic a wake-up is
-- a list of calls that other threads make before it, which have wake-ups of their own: each of them
-- has returned, or waits for ever, when the wait that it comes in goes on.
--
-- Loops. The loops over a list take fuel, and so do OSA_mbxFlush, OSA_mbxWaitCmd, the loop of
-- OSA_mbxBroadcastMsg for acknowledgements, the loop of OSA_processClient_thread that frees frames, and
-- OSA_tskThrMain, which has no end. One round more than there are nodes, messages or frames is enough,
-- but OSA_mbxWaitCmd and OSA_mbxBroadcastMsg end only if the command or the acknowledgements come;
-- without fuel they are `stopped`. The loop of a wait ends with the list of wake-ups, and the loop of a
-- thread in communication with the list of its rounds; the loop of OSA_bufCreate counts down. The loops
-- of OSA_tcpSndNonblockFd and OSA_tcpRcvBlockFd take fuel and are `none` without it; seven rounds more
-- than there are bytes are enough for the first, and three more for the second. `2 ^ 31 + 3` rounds are
-- enough to receive any message.
--
-- Parameters. What malloc, the pthread initialisers, the clock and the signals return is an argument
-- of the operation; the pthread calls of Thr and the streams of File are records of operations with
-- what their manual pages promise as laws. The other members of a Frame_Head_t are a type parameter of
-- Communication/Stream, and its bytes in memory an argument; a client's get_emptybuf is one too. What
-- the functions of osa_buf.c only clear, OSA_BufInfo, is a type parameter of Buf.
--
-- Not modelled: in communication the receive timeout that the threads set, and OSA_server_printfInfo,
-- which prints; OSA_prfPrint, which prints too; the code of osa/src/osa.c under `#if 0`; json, a copy of
-- cJSON; the programs in test. Communication/Server and Communication/Stream/Sender leave out the entry
-- that their thread has in the list of clients, which Communication/Accept has, and the release of its
-- handle.
pub mod Base
pub mod Monitor
pub mod Ring
pub mod Place
pub mod Que
pub mod Sem
pub mod Buf
pub mod Memory
pub mod OsaList
pub mod Msgq
pub mod Mbx
pub mod Event
pub mod Prf
pub mod Socket
pub mod Communication
pub mod Pipe
pub mod Tsk
pub mod File
pub mod Clock
pub mod Thr
