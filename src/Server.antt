-- ===== src/Server.antt =====
-- Parts of NfsServerSimple, include/simple-nfsd/core/server_simple.hpp and
-- src/simple-nfsd/core/server_simple.cpp: the choice of the protocol version, the table of file
-- handles, and the XDR helpers of the NFSv4 procedures.
pub mod Versions
pub mod Handles
pub mod Xdr
pub mod Calls
pub mod Access
pub mod Root
mod Runs
mod Traffic
