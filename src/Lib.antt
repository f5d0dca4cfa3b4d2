-- ===== src/Lib.antt =====
-- The service agent of the framework (soaagent): a daemon on each host that learns from zookeeper
-- which nodes provide which services, keeps a pool of connections to each node, and forwards the
-- calls of local clients over a checksummed datagram protocol. Clients build their requests with a
-- PHP extension (soaprotobuf), and providers announce their services with another (soaregister).
--
-- Files and the code they model:
--   Url              soaagent/url_encode.c (soaregister/url_encode.c is the same text)
--   StringArray      soaagent/str_array.c: the node keys of a service, handed out in turn
--   Clock            get_time_difference and next_identifier of soaagent/util.c
--   Conn, ConnPool   soaagent/conn_pool.c, with LL_APPEND and LL_DELETE of soaagent/utlist.h
--   Decimal          `%d` of the C library, for the keys
--   ServiceConf      soaagent/service_conf.c: keys, filter, differences of registered instances
--   ServiceResource, NodeResource, Resource
--                    soaagent/resource_mgt.c: the tables of services and pools, and both together
--   Crc              soaagent/crc32.c
--   Socket           socket_send and socket_receive of soaagent/util.c
--   Protocol         soaagent/protocol.c
--   Paths            get_dir_path and get_file_name of soaagent/util.c
--   Directories      make_sure_dir, mkdirs, write_pid, read_content_from_file and
--                    write_content_to_file of soaagent/util.c
--   Invoke           soaagent/invoke_stub.c: notify_change and the tables after a change
--     Agent          children_change_func_impl, watch_declared_services, the watcher, with
--                    get_children of soaagent/zk_handle.c
--     Shutdown       invoke_stub_destroy, with fini_zk_handle and the destroy functions of the
--                    tables
--     Call           invoke_service; Exchange, Service and Invocation prove what a call does
--   Proxy            soaagent/proxy_message.c: the messages of local clients
--   Server           soaagent/server.c: do_accept, and readcb with handle_buffer
--     Startup        server_startup_multibase, do_handle_notify and errorcb; Handover is the
--                    relation of the steps of the main thread and the workers
--   Config           get_config_item_int of soaagent/conf.c, parse_addr of soaagent/util.c
--     Substitute     get_config_item of soaagent/conf.c, substitute of soaagent/util.c
--   Main             soaagent/main.c: the options, the order of the start, the signals, with
--                    config_init, log_init, invoke_stub_init, init_zk_handle and the init
--                    functions of the tables
--     Daemon         daemonize of soaagent/util.c
--     Lifetime       what happens to the agent while it serves, in any order
--   Zookeeper        soaagent/zk_handle.c: nodes and the nodes above them
--   Register         soaregister/service_mgt.c: a provider announces its services
--   Log              soaregister/log.c: levels, and a file for each day
--   Scp              soaregister/scp.c, with the end of soaregister/service_mgt.c
--   Soaprotobuf      soaprotobuf/soaprotobuf.c: a client builds a request
-- A function of the C code has a definition of the same name; a static helper or a loop has a
-- definition beside it.
--
-- How state and effects are written:
--   * Connections lie in a `Store` that maps addresses to `Conn`, with the descriptors that are
--     open; a pool holds the addresses of its connections. What the node answers to the i-th
--     `connect`, and when, is a function of the store, so it is a parameter of every theorem.
--   * Every operation of a pool or a table runs under its lock; a history of a pool is a relation
--     whose steps are whole operations and changes by the rest of the process.
--   * A fault is `none`: a NULL that is followed, also that of an item that a JSON text lacks, a
--     list that becomes cyclic, a buffer that is overrun, a pointer into a block that was moved.
--   * The watchers of zookeeper hold pointers into the array of the contexts. When a push moves the
--     array is a function of its length; a pointer is the moves that it was taken after, and an
--     index.
--   * A text that the code reads as a C string ends at its first NUL (`c_str` of Conn).
--   * A call of `invoke_service` is one step, although the code uses the node after the lock of the
--     table is released.
--   * A `uthash` table is the list of its items, the latest first; a `UT_array` is a list.
--   * The kernel answers `send`, `recv` and `select` from lists of replies. A list that ends leaves
--     the call waiting, which is a status of its own; enough replies are one for each byte.
--   * 32-bit counters and times wrap, written as remainders. A message is shorter than 2^31 bytes.
--   * `malloc`, the locks and `pthread_mutex_init` succeed.
--
--   * The start of the agent is a run: the events that others can see, and how it ends. What the
--     calls of the system, libevent, zlog and zookeeper answer meanwhile is a record of answers.
--   * The main thread and the workers of the server interleave: a step is an accept, or a worker
--     that takes one descriptor from its pipe.
--   * The file system is an interface with the laws that are documented of `mkdir` and `fopen`.
--   * The loop of `substitute` has fuel: each round takes at least one byte of the input, since the
--     text that is replaced is not empty, so a round for each byte and one more are enough.
--
-- Not modelled: cJSON, iniparser and its dictionary, the uthash headers (other projects), the
-- protobuf code (generated), libevent, zlog and zookeeper; the tables with which PHP loads its
-- extensions; and in soaagent the texts of the status and of log lines. What cJSON makes of a text
-- and what zookeeper answers are parameters.
pub mod Common
pub mod Url
pub mod StringArray
pub mod Clock
pub mod Conn
pub mod ConnPool
pub mod Decimal
pub mod ServiceConf
pub mod ServiceResource
pub mod NodeResource
pub mod Resource
pub mod Crc
pub mod Socket
pub mod Protocol
pub mod Paths
pub mod Invoke
pub mod Proxy
pub mod Server
pub mod Zookeeper
pub mod Register
pub mod Config
pub mod Log
pub mod Directories
pub mod Soaprotobuf
pub mod Main
pub mod Scp
