-- ===== src/Http.antt =====
-- HttpProtocol.h and HttpProtocol.cpp.
pub mod Types
pub mod Upgrade
pub mod Protocol
pub mod Head
pub mod Request
pub mod Answer
pub mod Ends
pub mod Next
pub mod Tried
pub mod Rounds
pub mod Endless
pub mod Asks
pub mod Origin
pub mod Opened
pub mod Safety
pub mod Pipeline
pub mod Handshake
pub mod Opens
