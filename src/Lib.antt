-- ===== src/Lib.antt =====
-- libeasy: the base library, src/lib/base, and the servers of v1.0.0/src, checked against models of
-- their code.
--
-- The library is a set of C components that servers are built from. A ring queue hands work to
-- threads; a memory pool gives out blocks of pages that are freed together; a buffer collects bytes
-- and reads them back, with blocks from malloc or from a pool; the log prints lines to the console,
-- to a file or through the syslog client, which sends datagrams; the string functions serve the
-- reader of property files; a thread pool runs tasks from a queue; locks and shared memory connect
-- processes. The TCP server and the TCP client keep their streams in lists of busy and idle ones, each
-- with a memory pool and a descriptor that epoll watches; the zones of IP addresses are read from a
-- file into a search tree; a group of servers has a ring that sends a URL to one of them; a Lua program
-- calls some of this through bindings, which also encrypt texts. The files under v1.0.0/src/core are
-- copies of those in src/lib/base.
--
-- Which module models which part:
--   Queue     src/lib/base/equeue.c    The record Queue is queue_t; create, push, pop, head,
--                                      is_empty, element_count, capacity and destroy are the
--                                      functions queue_*, where full, grow, tidy, move and append
--                                      are the parts of queue_push.
--   MemPool   src/lib/base/emem_pool.c Page and Pool are mem_page_t and mem_pool_t; create, alloc,
--                                      calloc and destroy are the functions mem_pool_*, where search,
--                                      walk, give and add_page are the parts of mem_pool_alloc.
--   Buffer    src/lib/base/ebuffer.c   Buffer is buffer_t; read, read_line, write, enlarge and eof
--                                      are the functions buffer_*. Its module uses MemPool.
--   Syslog    src/lib/base/esyslog.c   The record Syslog holds the static variables; open_syslog,
--                                      write and close are syslog_open, syslog_write, syslog_close.
--   Log       src/lib/base/elog.c      The record Log holds the static variables; each function log_*
--                                      has the name it has in C. It uses Syslog.
--   Strings   src/lib/base/estring.c   Each function has the name it has in C.
--   Property  src/lib/base/eproperty.c The loop of property_read is read_lines; what it makes of a
--                                      line is item_of and item_in. It uses Strings.
--   Time      src/lib/base/etime.c     Time is struct timeval; the comparisons and time_add,
--                                      time_subtract, time_delta and time_signed_delta have the names
--                                      they have in C.
--   Streams   v1.0.0/src/network/tcp_server.c  The lists of streams: Links are the pointers last and
--                                      next, Chain is head, tail and number; delete_stream and
--                                      add_stream are the functions delete_stream_from_*_list and
--                                      add_stream_into_*_list of the busy and the idle list.
--   TcpServer v1.0.0/src/network/tcp_server.c  Server and Stream are tcp_server_t and
--                                      tcp_server_stream_t, Kernel is what epoll watches and what
--                                      was closed; Accept has tcp_stream_init and accept_cb, Create
--                                      the creation and destruction, Loop tcp_server_run and what
--                                      steers it. It uses Streams, MemPool and Time.
--   TcpClient v1.0.0/src/network/tcp_client.c  Client and Stream are tcp_client_t and
--                                      tcp_client_stream_t; the functions have the names they have in
--                                      C, where init_fields is tcp_client_stream_init on the fields of
--                                      a stream and Loop has tcp_client_run. It uses Streams, MemPool
--                                      and the kernel of TcpServer. The file does not compile: names
--                                      that are not declared are read as the parameters that they
--                                      stand for.
--   IpZone    v1.0.0/src/ip_zone/ip_zone.c  Zone and Zones are ip_zone_t and ip_zones_t, Tree is the
--                                      tree of rb_node without its colours; the functions have the
--                                      names they have in C, where place is the loop of
--                                      rbtree_insert and range what ip_zones_add makes of a mask.
--                                      Load has ip_zones_load, whose loop is load_loop.
--   ProcessLock src/lib/base/eprocess_lock.c  The functions have the names they have in C; Kernel is
--                                      what semop and semctl do, a parameter.
--   Shm       src/lib/base/eshm.c      Shm is shm_t; the functions have the names they have in C.
--   ThreadPool src/lib/base/ethread_pool.c  ThreadPool and Context are thread_pool_t and
--                                      thread_context_t; the functions have the names they have in
--                                      C, where start is the loop that creates the threads. It uses
--                                      Queue.
--   Files     src/lib/base/eother.c    The functions have the names they have in C; System is what
--                                      they ask of the file system, a parameter. Interfaces has
--                                      create_random and get_ip.
--   Sockets   src/lib/base/enetwork.c  The functions have the names they have in C; Answers is what
--                                      the system answers, Call what is called with an effect.
--                                      O_NONBLOCK and the sizes of an address are those of Linux.
--                                      Datagrams has network/udp.c and network_util.c of v1.0.0/src.
--   ServerConhash v1.0.0/src/server_conhash/server_conhash.c  The functions have the names they have in
--                                      C, where add_servers and add_groups are the loops. Conhash is
--                                      what conhash and hashmap do, Script what the functions of the
--                                      Lua file answer, Memory where there is memory: parameters.
--   Lua       v1.0.0/lua/easy_lua.c    The functions have the names they have in C. Hex has the digits
--                                      to the base of 16, Crypt what uses 3DES, where Des3 is what
--                                      3des.c does, a parameter, and Bindings the rest; a function
--                                      gives the values that it pushes on the stack of Lua.
--   Prelude                            Names of the libraries passed on, Boolean tests, lists with
--                                      native indices, signed integers, words of 32 bits, faults,
--                                      parts of lists, decimal numbers.
-- The module of a component holds its definitions; the modules below it hold the theorems, named for
-- what they are about, and Tests has runs and the theorems at concrete inputs.
--
-- How C is read:
--   State is a record that an operation takes and gives back; what a call does outside is listed, as
--   bytes written, datagrams sent, descriptors and addresses freed. Undefined behaviour, such as an
--   access out of bounds, a pointer NULL that is followed, or an int that overflows, is `none` of
--   Option (Prelude.Fault). An int is a number of Prelude.Int or, where it is never negative, a
--   native number; what wraps around has its remainder written out. Pointers into a block are
--   offsets in it, pointers to pages are places in the list of pages. A C string is the list of its
--   bytes before the zero.
--   What malloc, realloc, posix_memalign, open, socket, sendto, epoll_wait, semop, mkdir, inet_aton,
--   vsnprintf and the clock answer is an argument of the operation that calls them, so that the
--   theorems hold for every answer that their hypotheses allow.
--   Each loop is recursion on a list or on the number of rounds that the code counts, so there is no
--   fuel, but for the digits of a decimal number, where twenty are enough for 64 bits, and for the
--   loop of ip_zones_load, where the number of bytes is enough, since each round uses one up. The
--   event loop runs over the list of what epoll_wait answers, which may be as long as one likes.
--
-- What is not modelled: the lock of the queue, which makes each of its operations one step; what
-- accept_cb means to do with a connection behind its use of the local variable server, which is never
-- set, so that the model ends there with undefined behaviour; the printing of times in src/lib/base;
-- tcp_stream_close for streams of a client, which has no code; the functions of conhash in v1.0.0/lua,
-- which only hand arguments on; the projects of others in v1.0.0/thirdparty.
pub mod Prelude
pub mod Queue
pub mod MemPool
pub mod Buffer
pub mod Syslog
pub mod Log
pub mod Strings
pub mod Property
pub mod Time
pub mod Streams
pub mod TcpServer
pub mod TcpClient
pub mod IpZone
pub mod ProcessLock
pub mod ThreadPool
pub mod Shm
pub mod Files
pub mod Sockets
pub mod ServerConhash
pub mod Lua
