-- ===== src/Base64.antt =====
-- base64.cpp.
pub mod Codec
pub mod Encoded
pub mod Decoded
pub mod RoundTrip
pub mod Reference
