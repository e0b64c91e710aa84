-- ===== src/Lib.antt =====
-- The server of Pick Up The Light, a video community: clients register, log in, upload and fetch
-- files, ask for and change information, chat, and keep their connection alive with heartbeats, over
-- TCP in packets with a fixed header. A request runs in a controller, which asks the database,
-- builds a JSON answer, and sends it. There are two servers for the same controllers: one on epoll
-- and a thread pool, and one on boost::asio, which main.cpp starts. Each controller has an overload
-- for a file descriptor and one for a socket; they are modelled once, over the channel that they
-- send on, and named `..._boost` where the overload for a socket is meant.
--
-- Which file models which part, by the paths from the repository's root:
--   Prelude, Outcome, Text, Table   numbers, lists, the ways a C++ call can end, std::string,
--                                   std::unordered_map
--   Protocol       config.h: constants, enumerations, the header of a packet and its bytes
--   Transfer       config.cpp: my_recv and my_send
--   Snowflake      snowflakeidworker.h, snowflakeidworker.cpp: nextId and the class around it
--   Evaluator      userstatusevaluator.h, userstatusevaluator.cpp: the heartbeat table and one
--                  round of the threads that check it; Evaluator.Overlap: calls within a round
--   ThreadPool     threadpool.h, threadpool.cpp: every critical section, and their interleavings
--   Platform       singleton.h: the state that the controllers share, and the outside of the program
--   LiveList       livelistmonitor.h, livelistmonitor.cpp
--   Database       dbbroker.h, dbbroker.cpp
--   NetPackets     netpacketgenerator.h, netpacketgenerator.cpp
--   Accounts       initcontrol.h, initcontrol.cpp: do_register and do_login
--   ModifyInfo     modifyinfocontrol.h, modifyinfocontrol.cpp: modify_info
--   SendInfo       sendinfocontrol.h, sendinfocontrol.cpp: send_info
--   SendFile       sendfilecontrol.h, sendfilecontrol.cpp: send_file and the packets of files
--   ReceiveFile    receivefilecontrol.h, receivefilecontrol.cpp: receive_file
--   Epoll          epolloperator.h, epolloperator.cpp: the watched descriptors
--   MyServer       myserver.h, myserver.cpp: processSingleRequest and processClientRequest;
--                  MyServer.Accept: processSingleConnect, processConnect and the start of launch
--   Serving        myserver.cpp: the loop of launch together with the pool and the heartbeats
--   Session        session.h, session.cpp: the same of a session on boost::asio
--   BoostServer    boostserver.h, boostserver.cpp, main.cpp: from main to the sessions
--
-- State and operations. A method is a function from its object's state to an outcome and the new
-- state (`Exec`): `ok`, an exception that leaves the method, `undefined` for a call without
-- defined behaviour such as a write past a buffer, or `waiting`. What was written before an
-- exception stays written. The controllers work on one record (`World`) with the objects behind
-- Singleton<...>::getInstance(). A method that holds its object's mutex is one step. The pool's
-- threads are a step relation: each step is what a thread does while it holds the mutex, or the
-- end of its task; which thread a notification wakes is open, and a sleeping thread may also
-- wake up by itself. The server on epoll in operation (Serving.Steps) is a step relation too,
-- between the main thread, which takes one reported event at a time, the threads of the pool,
-- whose tasks are the descriptors that they serve, and the check of the heartbeats. A turn of a
-- task's loop, with the whole handling of one request, is one step, and so is a round of the
-- check. After its last turn a task is through with its descriptor; that the thread counts this,
-- under the lock of the pool, is a step of its own, and the next task of the descriptor may have
-- started by then. A handler of the server on asio is one step too, and a run there is a
-- sequence of events. The methods of the heartbeat table take a lock that does not exclude one
-- another: Evaluator.Overlap follows the check access by access, with calls of the other methods
-- in between; everywhere else a round of the check is one step. A throw in a thread ends the
-- process, and with it the run. Which descriptors the kernel has given out and not taken back is
-- kept as two lists; that it gives out none that is open is a premise of the step that accepts.
--
-- Outside the program, and so parameters: JSON (nlohmann), MySQL (mysql++), the disk, the system
-- calls recv, send, accept, socket, bind, listen and epoll_wait, boost::asio::read and write, and the
-- clock. What a theorem needs of them is a named hypothesis: IsStream and IsSink for the
-- kernel's sockets, IsAsioStream for asio's read, IsListening for a socket with clients that
-- wait, Remembers and HasTables for the database, StaysInEra for the clock. Platform.Concrete,
-- Transfer.Pipe and Transfer.AtOnce are instances that compute.
--
-- Rounds. Four loops wait for the outside: tilNextMillis for the clock, my_recv, my_send and
-- processConnect for the network. Each is followed for a number of rounds, after which the call is
-- `waiting`; how many rounds are enough is a theorem for each of them. processClientRequest is
-- followed for a number of requests.
--
-- Not modelled: the output to the log; the constructors of DbBroker and EpollOperator, which connect
-- or end the process, and the destructors but that of the pool; the sleep between two
-- checks of the heartbeats; the memory that is allocated and freed; json/, a copy of nlohmann/json,
-- which is a parameter where the code calls it.
pub mod Prelude
pub mod Outcome
pub mod Text
pub mod Table
pub mod Snowflake
pub mod Evaluator
pub mod Protocol
pub mod Transfer
pub mod ThreadPool
pub mod Platform
pub mod LiveList
pub mod Database
pub mod NetPackets
pub mod Accounts
pub mod ModifyInfo
pub mod SendInfo
pub mod ReceiveFile
pub mod SendFile
pub mod Epoll
pub mod MyServer
pub mod Serving
pub mod Session
pub mod BoostServer
