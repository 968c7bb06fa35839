-- ===== src/Tests.antt =====
-- Runs of the definitions and instances of the theorems.
mod RequestRuns
mod WebsocketCases
mod ConnectionCases
mod RequestCases
mod ResponseCases
mod DispatcherCases
mod HttpCases
mod EventCases
mod UpgradeCases
mod StaticCases
