-- ===== src/Connection.antt =====
-- The connection handler (ConnectionHandler.cpp): the transmit queue and the events of the socket.
pub mod Transmit
pub mod Flush
pub mod Queue
pub mod Fifo
pub mod Schedule
pub mod Progress
pub mod Protocols
pub mod Handler
pub mod Calls
pub mod Sends
pub mod Events
pub mod Stopped
pub mod Follows
pub mod Reads
pub mod Served
pub mod Open
pub mod KeepAlive
pub mod Upgraded
