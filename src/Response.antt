-- ===== src/Response.antt =====
-- Response.h and Response.cpp.
pub mod Tables
pub mod Decimal
pub mod Fields
pub mod Types
pub mod Values
pub mod Serialize
pub mod Received
