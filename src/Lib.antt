-- ===== src/Lib.antt =====
-- The server library of this repository: the event loop over epoll with its TCP and UDP tasks, the byte
-- buffer they parse with, the queue and the work thread that messages are handed to, the registry of
-- handlers, the discovery client over ZooKeeper, the configuration file, the run log, the pool of Redis
-- clients, the HTTP client, and conditions with timed waits; and the websocket client and server that talk to
-- each other.
--
-- A `CEpoll` holds an interest list and calls `HandleProcess` of the tasks that are ready. A task reads
-- into a `CVBuffer`, cuts messages out of it and hands them to `CMyserver`; it sends the messages that
-- were put on its list while the socket takes them. A `CWorkThread` gets messages from a `CSynQueue`,
-- parses the head, looks the command up in the registry and runs the object made for it. A `zookClient`
-- registers its own host and tells subscribers of hosts that come and go.
--
-- Files, with the code they model:
--   Base         numbers, tests, lists, statuses that the other files share
--   Buffer       common/buffer.h, common/buffer.cpp: `CVBuffer`. A state is the array as a function from
--                index to byte, `m_uOffset` and `m_uGetOffset`. Buffer/Bytes has copies in and out of such
--                an array, Buffer/Order the byte order, Buffer/Bounds, Buffer/Fifo and Buffer/Wire proofs
--   Epoll        common/myepoll.h, common/myepoll.cpp: `CEpoll`, the interest list as an association list
--   Task         common/basetask.h, common/basetask.cpp: `CSendMsg`, `CBaseTask`; Task/Stream has the sending
--                loop, Task/Loop is `EpollWait` over tasks that share the interest list and have the
--                `HandleProcess` of `CBaseTask`
--   Tcp          common/mytask.h, common/mytask.cpp: `CTcpTask`; Tcp/Recv is `RecvProcess`,
--                Tcp/Recv/Several more than one of them, Tcp/Progress sending to a kernel that gets on
--   Udp          common/mytask.h, common/mytask.cpp: `CUdpTask`
--   Sockets      common/mytask.cpp: `CreateBindSocket`, `CreateListenSocket`, `Connect`, `Init` and
--                `HandleProcess` of the accepting task; `CMySingleton` of common/common.h
--   SynQueue     common/synqueue_t.h: `CSynQueue`, each step of a `put` or `get` by itself
--   Registry     common/PlugContext.h: `SCmd`, `SCallback`, `COpRegiHelper`, `GetGlobalCmdMap`
--   Worker       common/work_thread.h, common/work_thread.cpp: `CWorkThread`
--   Pipeline     Tcp and Worker together: the messages that a `CTcpTask` hands on, each given to `Process`;
--                Pipeline/Peers has the sending task in front of them, Pipeline/Datagrams a sending and a
--                receiving `CUdpTask`
--   Discovery    common/zooClient.h, common/zooClient.cpp: `zookClient`, `compareHostInfo`, `SplitString`,
--                `parseHostInfo`, `generateAddrInfo`; `HostInfo` of common/common.h. Discovery/Session has the
--                watchers and `observer`, with fuel for the loops of `getServerList`: 256 rounds are
--                enough where they end
--   Config       common/Config.h, common/Config.cpp: `Magic_Config`; Config/Load is `LoadFile`,
--                Config/Store the object with its file, and what the stream does to `WriteFile`
--   Http         common/http_client.h, common/http_client.cpp: `CHttpClient`; common/common.cpp:
--                `GetUdpServerAddr`. libcurl, jsoncpp and `atoi` are parameters
--   Log          common/writeRunInfo.h, common/writeRunInfo.cpp: `CLogTypeArray` and `WriteRunInfo`, with the
--                file system as a map from paths to contents; Log/Trace is `WriteBufToTrace`,
--                Log/Locked the calls with `m_logMutex` (`CThreadMutex` of common/threadmutex.cpp), the statistics
--                and the day files
--   Redis        common/redisCliMgr.h, common/operation.h: `RedisCliMgr` and `GPN_OPERATION`, with what the
--                Redis library returns or throws as a parameter; Redis/Owners has the threads' guards,
--                Redis/Threads each step of theirs with the lock of common/lock.h
--   Cond         common/threadmutex.h: the deadline of `CThreadCond::WaitCondTimeOut`; Cond/Life is `CThreadCond`
--                with the calls of pthread that it makes
--   Echo         client/cclient.cpp, server/main.cpp: the handlers of the client and the server
--   Tests        the theorems with hypotheses at concrete inputs
--
-- Conventions. Numbers are natural; sums and differences of machine integers are written with their
-- wrap-around (`add32`, `sub32`, `% 2 ^ 16`). The host is little-endian, as the byte order functions of
-- the source assume. A NULL pointer and the descriptor -1 are `none`. A return code is a `Status`: `failed`
-- for -1, or `code n`. What the kernel answers is a list of replies; a kernel with no more to say would
-- block. Memory is not freed, and the other parts write no log.
--
-- Bounds and fuel. The buffer has 65536 bytes. The loop over a TCP buffer runs on as much fuel as there are
-- bytes, and each round takes at least the two bytes of a length; the sending loop has `m_nSendNum` rounds in the
-- source itself. The loops with a `uint8_t` counter run on fuel that is an argument.
--
-- Not modelled: the dates of common/common.cpp, which `localtime_r` and formats make, and the JSON texts of
-- common/common.h; the recursive kind of `CThreadMutex`; the set-up of websocketpp under client and server, and
-- the programs under testclient and process, which drive libraries. Protobuf, ZooKeeper, libcurl, jsoncpp,
-- websocketpp, the Redis client, libc's `atoi` and `snprintf` of a port and the kernel are parameters. A write to
-- a file that has been opened fails only in Config/Store.
pub mod Base
pub mod Buffer
pub mod Epoll
pub mod Task
pub mod Tcp
pub mod Udp
pub mod Registry
pub mod SynQueue
pub mod Sockets
pub mod Worker
pub mod Pipeline
pub mod Discovery
pub mod Config
pub mod Log
pub mod Redis
pub mod Http
pub mod Cond
pub mod Echo
pub mod Tests
