-- ===== src/Lib.antt =====
-- A verification library for simple-nfsd, an NFS server with its own portmapper and lock manager.
--
-- The program. A connection thread hands the bytes of a message to
-- NfsServerSimple::processRpcMessage, which parses it with RpcUtils, authenticates the call with
-- AuthManager, negotiates the version of NFS, and dispatches to the procedures; calls of program 100000
-- go to Portmapper. The procedures name files by handles from a table, lock byte ranges through
-- LockManager and share opens through FileAccessTracker; SecurityManager keeps sessions, access control
-- lists and an audit log.
--
-- The parts and their files.
--   * Lock, Lock/...: include/simple-nfsd/core/lock.hpp and src/simple-nfsd/core/lock.cpp. LockManager
--     is its table of locks and its id counter; each method is a function of the same name. Range is
--     about FileLock::overlaps, Exclusion and Ids about histories of calls, Conflict about acquireLock,
--     checkLockConflict, nlmTest and getLock, Release about the ways to give locks up.
--   * Portmapper, Portmapper/...: include/simple-nfsd/core/portmapper.hpp and
--     src/simple-nfsd/core/portmapper.cpp. Registry is about single operations, Invariant about
--     histories, Stats about the counters, Wire about the byte form of a mapping. The
--     handlers send no reply (handleNull builds one and drops it), so that a handler is what it does to
--     the state.
--   * Rpc, Rpc/...: include/simple-nfsd/core/rpc_protocol.hpp and src/simple-nfsd/core/rpc_protocol.cpp.
--     Layout is an independent description of the byte form; Overflow, RoundTrip, AuthSys and Replies
--     are about RpcUtils.
--   * Tracker, Tracker/...: include/simple-nfsd/utils/access_tracker.hpp and
--     src/simple-nfsd/utils/access_tracker.cpp. Sharing is about the rule that decides whether two
--     opens may stand together, Opening about openFile and histories.
--   * Auth, Auth/...: include/simple-nfsd/security/auth.hpp and src/simple-nfsd/security/auth.cpp. Parse
--     is about parseAuthSysCredentials, Squash about authenticate.
--   * Acl, Acl/Laws: FileAcl of include/simple-nfsd/security/security.hpp and
--     src/simple-nfsd/security/security.cpp.
--   * Security, Security/...: SecurityManager of include/simple-nfsd/security/security.hpp and
--     src/simple-nfsd/security/security.cpp. Credentials, Login, Access and Sessions are its parsers,
--     authenticate, its decisions on paths and files, and its sessions; Bounds, Identity and Netname are
--     about logins, Paths about the decisions, Audit about histories. Ledger says what sessions promise
--     without a map, and Agreement and Lifetime compare the sessions with it.
--   * Server/Calls: processRpcMessage, handleRpcCall, authenticateRequest and handlePortmapperCall of
--     src/simple-nfsd/core/server_simple.cpp, over Rpc, Auth and Portmapper; Access and Root are about
--     them. Server/Versions, Server/Handles, Server/Xdr: negotiateNfsVersion, the table of file handles,
--     and the handle and string codecs of the NFSv4 procedures, from the same file.
--   * Nfs2, Nfs2/...: handleNfsv2Call and the NFSv2 procedures of the same file, with validatePath,
--     readFile, writeFile and readDirectory, over files that are a parameter, `Files`. Reading, Changing
--     and Links are the procedures, Attributes what they reply with. Stuck, Only and Uncounted follow
--     what the parts of a procedure do; Targets, Guarded, Bootstrap, Creation, Lookup, Counting, Overruns
--     and Contents are about calls and histories of calls.
--   * Nfs3, Nfs3/...: handleNfsv3Call and the NFSv3 procedures of the same file, over the state of Nfs2
--     and a parameter `Disk`. Reading, Changing, Listing and Volume are the procedures. Effects and
--     Counting follow what the parts of a procedure count; Refused, Anonymous and History are about
--     calls and histories of calls, Sizes and Leaks about single procedures.
--   * Nfs4, Nfs4/...: handleNfsv4Call and the NFSv4 procedures of the same file, over the same state and
--     a parameter `Store`. Reading, Changing, Volume, Acls and Sessions are the procedures. Parsing,
--     Keeps and Anonymous are about clients that are not authenticated, Traversal about LOOKUP, AclForm
--     about the byte form of access control lists.
--   * Filesystem, Filesystem/...: FilesystemManager of include/simple-nfsd/core/filesystem.hpp and
--     src/simple-nfsd/core/filesystem.cpp, over a system that is a parameter, `Host`. Files, Caches,
--     Exports and Quotas are its methods, History the histories of its calls; Freshness, Contents,
--     Limits and Subtree are about the attribute cache, the content cache, quotas and the subtree check.
--   * Prelude, Map, Bytes and Text: shared helpers; std::map in the order of its keys; vectors of
--     bytes; strings as the bytes they hold.
-- The modules called Runs and Traffic apply the theorems, and run the definitions, at concrete inputs.
--
-- How the code is modelled.
--   * A method that holds its object's mutex from entry to exit is one step, and a history is a list of
--     steps in the order in which they took the mutex. FileAccessTracker calls a method that locks from
--     a method that holds the lock, so there the mutex is part of the state.
--   * A clock is an argument, read once for a call. In a history of the lock manager it never goes
--     back, as a steady clock.
--   * A byte, a uint32_t and a uint64_t are natural numbers; sums that can wrap carry their modulus.
--     size_t offsets into a vector do not wrap, since a vector is shorter than 2^63.
--   * An enum over uint32_t is its number, since static_cast takes any number off the wire.
--   * Paths and owners are strings; a string that is parsed, printed or searched is its bytes.
--   * Memory that a parser or a printer touches outside its vector is undefined in the code: the model
--     returns `fault` (or `bad`), which no later step undoes. An exception is `thrown`.
--   * The loop that aligns an offset in parseAuthSysCredentials has fuel 4: four rounds reach the next
--     multiple of 4, or leave the data. The loops over group ids recurse on the count that was read.
--   * A procedure stops where a test fails, where a call of std::filesystem throws, or where a read
--     leaves the message; the first two are caught and counted. How much memory READ asks for is left
--     out.
--   * The NFSv3 procedures append a vector to itself, which C++ leaves undefined; the model copies, as
--     the GNU library does. What they read past a variable on the stack is a parameter.
--   * A message that the server takes ends in an effect: a reply handed to sendReply, a procedure to
--     run, or neither. What sendReply then does with the socket is not part of it.
--
-- Not modelled: sockets and threads, the encryption of
-- SecurityManager, which is OpenSSL, its audit file and the random numbers of its session identifiers,
-- the methods of FilesystemManager that only write through a call of the system, and its monitoring
-- thread; the POSIX file system, the configuration parsers and the application, which are mostly input
-- and output or stand on parts that are; the user and group databases of AuthManager and
-- its verifier, which read the system and the clock; log output.
pub mod Prelude
pub mod Map
pub mod Nfs2
pub mod Nfs3
pub mod Nfs4
pub mod Bytes
pub mod Rpc
pub mod Portmapper
pub mod Tracker
pub mod Auth
pub mod Acl
pub mod Filesystem
pub mod Lock
pub mod Server
pub mod Text
pub mod Security
