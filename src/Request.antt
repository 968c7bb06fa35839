-- ===== src/Request.antt =====
-- The request parser (Request.cpp).
pub mod Url
pub mod Reference
pub mod Unescape
pub mod Escape
pub mod Fields
pub mod Lines
pub mod Headers
pub mod Types
pub mod Rounds
pub mod Parse
pub mod RequestLine
pub mod Plain
pub mod Multipart
pub mod Parts
pub mod PartRounds
pub mod HeaderRounds
