-- ===== src/Lib.antt =====
-- The Kaplar game server: a verification library for its C code.
--
-- The server accepts connections on the ports of its services (src/server/iocp_svcmgr.c), keeps
-- each in a slot of a table (src/server/iocp_connmgr.c), reads messages of a length and a body
-- (src/buffer_util.h), hands them to the protocol of the connection, and runs the game's work from
-- task buffers (src/task_rbuffer.c, src/task_dbuffer.c). Messages are built in output buffers
-- (src/outbuf.c), encoded by src/crypto/xtea.c and carry the checksum of src/adler32.c; passwords are
-- hashed by src/crypto/bcrypt.c, with src/crypto/blowfish.c, and written by src/crypto/base64.c;
-- settings come from src/config.c. src/protocol_login.c answers the clients that log in,
-- src/protocol_echo.c those of the echo service, src/protocol_game.c those that enter the game.
-- src/rbtree.c is a container for any of these parts.
--
-- Files and code:
--   Base and its children: names shared by all modules, the conditional, lists measured by native
--     numbers, fixed-width arithmetic (a cast is a remainder), the bit operators.
--   Codec/Endian, Codec/Portable, Codec/Native, Codec/TibiaString: src/endian.h, src/buffer_util.h.
--     A pointer is the list of bytes from there to the end of its memory; `none` is an access
--     outside it. Codec/Agree compares the two preprocessor branches on little-endian targets.
--   Crypto/Xtea: src/crypto/xtea.c. Crypto/Base64: src/crypto/base64.c. Checksum/Adler:
--     src/adler32.c. Loops over a buffer recurse on it; the outer loop of adler32 has `len` rounds
--     of fuel, enough since each round takes a byte, and the result is proved to be defined.
--   Crypto/Blowfish and its children: src/crypto/blowfish.c, its tables in BoxesLow and BoxesHigh.
--     Crypto/Bcrypt: src/crypto/bcrypt.c. A C string is the list of its bytes with the NUL; what
--     the random generator wrote is an argument, and so is whether `char` is signed on the target.
--   Rbtree/Nodes, Search, Update, Removal: src/rbtree.c and src/rbtree.h. The store maps pointers to
--     nodes; a read through NULL or to no node is the outcome `fault`. A loop that follows pointers
--     runs on fuel, and more fuel than nodes is proved enough. Rbtree/Shape says which tree the links
--     represent, seen from a subtree in the context of its ancestors; Rbtree/Repair has the rounds of
--     the insertion on trees. The other children follow the code on such trees.
--   Server/Connection/State, Slots, Operations, Handlers: src/server/iocp_connmgr.c and the
--     structures of src/server/protocol.h. `Mgr` is the static state, `Conn` a `struct conn_ctl`
--     whose flag bits are Booleans; each handler is split where the source has its first early
--     return. What the operating system has accepted is in the last fields of `Conn`, its answers to
--     the next calls in `answers`. Protocols are the parameter `Callbacks`, with the laws `IsPolite`
--     that the manager relies on. Handlers/Reach has the events and the states they reach.
--   Server/Services and Server/Services/Listen: src/server/iocp_svcmgr.c. The answers of the
--     operating system are lists, read in the order of the calls; the last fields of `Service` say
--     whether bind and listen succeeded on its socket.
--   Memory/Arena: src/mem_arena.c; Memory/Outbuf: src/outbuf.c and src/outbuf.h. Pointers into a
--     block or a buffer are offsets.
--   Checksum/Murmur: src/murmur2.c. Config: src/config.c without the Lua script; C strings are lists
--     of their bytes, and the two probes of the table are recursion on the tries that are left.
--   Tasks/Double: src/task_dbuffer.c. Tasks/Ring: src/task_rbuffer.c. A call is split at its
--     condition variable into runs under the lock; Tasks/Ring/Fifo has the runs of all
--     threads, in any order.
--   Protocol/Login and its children: src/protocol_login.c. RSA, the database, the configuration and
--     the answers of the task buffers are the records `Env` and `Answers`; what the handlers change
--     outside a login is the record `World`. Deliver says what a client reads of a wrapped message.
--     Protocol/Echo: src/protocol_echo.c, without on_close, which frees the handle.
--     Protocol/Game: src/protocol_game.c as far as it is written.
--   Files named Tests hold concrete runs.
--
-- Not modelled: the ARCH_BIG_ENDIAN macros and the float functions of src/buffer_util.h, debug
-- assertions and logging, the system calls, libraries outside the repository (GMP, Lua, libpq),
-- the game loop and the database. Removal from the red-black tree is modelled and run, and nothing
-- is proved of it.
pub mod Base
pub mod Codec
pub mod Crypto
pub mod Checksum
pub mod Config
pub mod Memory
pub mod Protocol
pub mod Server
pub mod Rbtree
pub mod Tasks
