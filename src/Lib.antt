-- ===== src/Lib.antt =====
-- A verification library for the YFS file system (inode_manager.cc, extent_server.cc, extent_client.cc,
-- yfs_client.cc, fuse.cc, the lock clients and servers, handle.cc and the headers beside them). Paths are from
-- the repository's root.
--
-- The program is a distributed file system: FUSE handlers (fuse.cc) call yfs_client.cc, which keeps
-- directories and files in extents; extent_client.cc caches extents of the extent server, and locks
-- come from a caching lock client and server. The extent server stores each extent as a file of an
-- inode layer over a disk in memory.
--
-- Which file models which part:
--   * Prelude: the shared names, Boolean tests, lists, and Process, the calls of one process with their
--     state: a call returns, ends the process (`exit`, or a `VERIFY` that fails), or does what C++ leaves undefined.
--   * Bytes: the bytes of a buffer and the little-endian words that casts of a buffer read.
--   * Disk: `disk` and `block_manager` of inode_manager.cc. `using_blocks` is a function, whose default
--     is 0 as for a `std::map`. Disk.Alloc is about the search for a free block.
--   * Inode: `struct inode` and its bytes. The padding of `type` is taken to be zero.
--   * Manager: `inode_manager`; the private helpers stand in Manager, the public methods in
--     Manager.Calls. The k-th reading of the clock in a call is a parameter. Manager.Sound has the
--     invariant: the disk is formatted, and no block belongs to two files. Manager.Files, Removing,
--     Creating, Reading and Initial have what each method comes to, and Manager.Indirect is about files
--     of more than NDIRECT blocks.
--   * Server: `extent_server`. Server.View is the abstract store of files that it implements.
--   * Ids: strings as names with their order, and `std::set` of them.
--   * LockServerCache: `lock_server_cache`. A method is its critical section; the message that it sends
--     with the mutex released is a separate step. Clients has the clients, interleaved in any order.
--   * LockServer: `lock_server`. A call of acquire is cut at its wait; Threads has the calls in any order.
--   * LockClient: `lock_client`, over the stubs of Stubs.
--   * Fifo: the queue of rpc/fifo.h. Threads has the threads that put and take, one round of a loop at a time.
--   * LockClientCache: `lock_client_cache`. A method is cut where it releases the mutex. Threads has the
--     threads of a client with the server's messages, one section at a time in any order; Lines and Holding
--     have what is kept, Giving and Stepping that it is, Exclusion what follows. Locks of one client do not share
--     state, so it is one lock.
--   * Handles: the connections of handle.cc, in a heap of objects by address. Users has the handles of the
--     program over time, Counted and Editing the count that each object keeps, Keeping that each call keeps it.
--   * ExtentClient: `extent_client`, over a record of the calls to the server (Interface), whose laws say
--     that the server is a store of files. Seen is what its user sees through the cache.
--     Backing is extent_server.cc at the other end of the calls; Known, Filed, Backed and Typed fill the laws, and Served
--     is about a client over that server. Tidy, Changing and Keeping are about the attributes in the cache, without
--     which a write is lost (Loss).
--   * YfsClient: `yfs_client`. Names has the numbers in decimal (Numbers is about them), Format the 80 bytes of
--     a directory entry and Changes the methods that change a directory or a file. The extent client is a record
--     of its methods (Files says what they rely on), and the calls of the lock client are a list of events. Dirs
--     is about the bytes of a directory; Listing, Adding, Refusing, Erasing, Ranges and Contents are about
--     the methods, Session and Cached are the extent client and its server as the store of files, Events and Pairing about the locks that they take.
--   * Fuse: the handlers of fuse.cc. A handler is a function to the one reply that it sends; Sessions has the
--     table of handlers and the session. Attributes, Entries, Reading and Writing are about the replies, Keeping and
--     Locks about the locks of a session. libfuse's bytes of a directory entry are a parameter.
--   * Marshall: the templates of rpc/marshall.h for vectors and maps and the operators of
--     extent_protocol.h, over the library's operators for numbers and strings. Headers has the buffers and
--     the headers of messages, Requests their round trips.
--   * Stubs: the templates of rpc/rpc.h, a call and a handler for any number of arguments, with their proofs in
--     Carried. Extents is the table of extent_smain.cc, and Remote the client's calls to it. A request is carried
--     by the library, a parameter.
--
-- Loops are structural recursion on the rounds that are left, which the code bounds: alloc_block runs over
-- BLOCK_NUM - start_at ids, alloc_inode over INODE_NUM - 1 numbers, the loops of a file over its blocks.
--
-- Not modelled: the RPC library (a prebuilt archive; each request is carried once), printing, the arguments
-- and the start-up of the main functions, memory that is freed but for the objects of handle.cc, and the
-- testers.
pub mod Bytes
pub mod Disk
pub mod ExtentClient
pub mod Fifo
pub mod Fuse
pub mod Handles
pub mod Ids
pub mod Inode
pub mod LockClient
pub mod LockClientCache
pub mod LockServer
pub mod LockServerCache
pub mod Manager
pub mod Marshall
pub mod Prelude
pub mod Server
pub mod Stubs
pub mod YfsClient
