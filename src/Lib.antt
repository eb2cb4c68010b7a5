-- ===== src/Lib.antt =====
-- tgChatServer: a chat server of cooperating services. Clients connect to a connd, which takes
-- their bytes apart into packets, authenticates them and passes their messages on to the logic
-- services over a bus of queues in shared memory. A centre keeps the registry of the services; each
-- service fetches the changes of it and chooses among the instances with a load balancer. A database
-- proxy runs the SQL transactions.
--
-- The parts and their files:
--   * Prelude: names shared by all files; tests, lists, association lists for `std::unordered_map`
--     and `std::map`, and the words of 32 and 64 bits, whose wrap-around is written out.
--   * Ring: server/core/shm/shm_ringbuffer.h and shm_ringbuffer.cpp. A method of `ShmRingBuffer` is a
--     function on the record `Ring` (`push`, `push_one`, `push_each`, `push_front`, `pop`, `pop_one`,
--     `pop_each`, `peek`, `discard` for `Drop`, `reset`, `try_push`, `try_pop`). Ring/Spec has the
--     bounded queue, Ring/Refinement compares the two, Ring/Reading, Writing, Front and Each have the
--     methods one by one.
--   * Transport: server/core/network/TcpConnection.cpp with PackBase.h and AppMsg.h. `receive` is
--     `onReadable`, `process_recv_buffer` the packet loop over the ring buffer; Transport/Frames
--     describes a stream of packets apart from any buffer. Transport/Send has `send_impl` and
--     `on_writable`. What the system calls return is an argument.
--   * Connd: server/connd. Connd/Session is `SessionManager`; Connd/Dispatch is `ConndMsgDispatcher`,
--     with the listener's callbacks of ConndService.h as `handle`. The authentication provider and
--     the message formats are parameters.
--   * Service, Balancer: server/common/ServiceInstance.h and LoadBalancer.cpp. A `select` method is a
--     function from the strategy's counter or nodes to their new value and the choice. The random
--     number and the hash of a key are arguments. Balancer/Smooth keeps an `int64_t` as its 64 bits.
--   * Registry: server/center/ServiceRegistry.cpp. A method is a function on the three maps, with
--     the time as an argument.
--   * Transactions: server/dbproxy/TransactionManager.cpp. The pool's and the database's answers are
--     arguments, and the calls of the database are recorded in order.
--   * Slab: server/core/shm/shm_slab.h and shm_slab.cpp. `alloc`, `free` and `new_page` on the free
--     lists, which are linked by 32-bit words of the memory; Slab/Classes has the size classes.
--   * Epoch, HashMap: server/core/shm/shm_epoch.h, shm_hashmap.h and shm_hashmap.cpp. `construct` is
--     the constructor of the map over the words of the memory, and `alloc_node` is `AllocNode` over the
--     allocator whose header is read off these words. HashMap/Overlap has what the constructor leaves
--     of that header and HashMap/Rounding the bucket counts.
--   * ConnectionPool: server/dbproxy/MySQLConnectionPool.cpp. `acquire` is cut where it lets the
--     mutex go, into `look`, `connected` and `woken`, `healthCheck` into `take_idle`, `drop_dead` and
--     `put_back`. ConnectionPool/Steps has the threads as a step relation.
--   * Registrar: server/center/TcpRegistrar.cpp, over Registry. BusNet: server/core/bus/IBusNet.cpp
--     and BusClientNet.cpp, over Balancer, and BusNet/Daemon is BusdNet.cpp. Registrar/Updates puts
--     the centre's answer and what the
--     service makes of it together.
--   * Timer: server/common/Timer.cpp. `turn` and `finish` are the worker's loop before and after a
--     callback.
--   * Migration: server/tools/dbmigrate. Migration/Sql is SQLGenerator.cpp, Migration/Engine the
--     run of MigrationEngine.cpp (`migrate`, `apply_migration`, and `statuses` and `orphans` for
--     `status`) and Migration/Commands two other commands, as the calls made of the database.
--     Migration/Body is about the text of a table, Migration/Calls, Outcome and Again about one
--     migration, a run, and a second run.
--   * Scheduler: server/core/coroutine/CoroutineScheduler.cpp. `suspend` and `yield_value` are `yield`
--     before and after the coroutine sleeps, `take_task` and `after_run` a worker before and after it
--     runs one. `resume` and `time_out`, the timeout thread, are composed of `claim`,
--     `exchange_waiting`, `give_value`, `give_nothing` and `enqueue_ready`. Scheduler/Races takes them
--     whole, Scheduler/Steps and Early interleave their parts.
--   * Base64: `base64UrlEncode` of server/account/AccountService.cpp and `Helper::base64Decode` of
--     server/common/Helper.cpp. Jwt: server/connd/auth/JwtAuthProvider.cpp (`verify`) and
--     AccountService.cpp (`on_apply_token`, `sign_jwt`), over Base64; HMAC and the JSON library are
--     parameters. Jwt/Issued puts the two services together, Jwt/Signed is about any token.
--   * Utf8, Uid: `Helper::IsTextUTF8` and `Helper::GenUID`, cut where other threads can come in.
--   * DbProxy: server/dbproxy/DBProxyHandler.cpp, over Transactions and DbProxy/Connection, which is
--     MySQLConnection.cpp. Rows follows a result set to the answer, Life a transaction through its
--     messages.
--   * Packs: `CreateSSPack`, `CreateCSPackage`, `ForwardRawAppMsg` and `DeleteSSPack` of Helper.cpp
--     and the receiving loop of server/core/bus/IBus.cpp, over Slab.
--   * Config: server/core/app/JsonParser.cpp, over an interface to the JSON library's tree with the
--     laws that the code relies on; Config/Manager is ConfigManager.cpp.
--   * BusClient: server/core/bus/IBus.cpp with server/common/MsgDispatcher.h. `request_send` and
--     `request_wait` are `Request` before and at its `yield`.
--   * Chat: server/logic/Chat/ChatHandler.cpp. CommandLine: server/core/app/CommandLineParser.cpp.
--   * Tests: runs at concrete inputs.
--
-- Every method that holds a lock from its first read to its last write is one step, so that an
-- interleaving of threads is a sequence of steps. The packet loop runs on fuel: one round for each
-- byte in the buffer and one more, which is enough since each round that goes on takes a packet of
-- at least 70 bytes off the buffer. The loop that rounds a bucket count runs on fuel too, and 29
-- rounds are enough for a count of at most 2 ^ 31. The size of a ring buffer is at most 2 ^ 62, so that the sum of
-- two offsets does not wrap around. All other loops are structural.
--
-- Not modelled: the page headers and bitmaps of the slab allocator, which nothing reads; the
-- methods of the hash map on nodes, which a map as it is built for counts that are powers of two
-- cannot allocate, and its memory while readers are registered; the loops of the
-- bus's daemon and its registration; the other listeners and the event loop, the
-- application frame, the other logic handlers and the MySQL client library; the migration tool's
-- reading of XML, its import and its copy of tinyxml2; and the generated protocol code. Logs, activity times and the text forms that
-- are only printed are left out of the models.
pub mod Prelude
pub mod Connd
pub mod Ring
pub mod Transport
pub mod Service
pub mod Balancer
pub mod Registry
pub mod Transactions
pub mod Slab
pub mod ConnectionPool
pub mod Registrar
pub mod BusNet
pub mod Timer
pub mod Epoch
pub mod HashMap
pub mod Migration
pub mod Scheduler
pub mod Base64
pub mod Jwt
pub mod Utf8
pub mod Uid
pub mod DbProxy
pub mod Packs
pub mod Config
pub mod BusClient
pub mod Chat
pub mod CommandLine
pub mod Tests
