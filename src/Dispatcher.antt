-- ===== src/Dispatcher.antt =====
-- Dispatcher.cpp, Route.h and Extractor.h.
pub mod Extract
pub mod Routes
pub mod Construct
pub mod Choice
pub mod Answer
pub mod WsRoutes
