-- ===== src/Static.antt =====
-- Static files (StaticFileHandler.h, StaticFileHandler.cpp) and dates (DateStrHelper.h,
-- DateStrHelper.cpp).
pub mod Dates
pub mod Files
pub mod Range
pub mod Handler
pub mod Answers
pub mod Bounds
pub mod Short
pub mod Paths
