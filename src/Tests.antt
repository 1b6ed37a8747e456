-- ===== src/Tests.antt =====
-- Runs of the theorems at concrete inputs.
mod Messages
mod Clients
mod Responses
mod Parsing
mod Commands
mod Requests
mod Library
mod Texts
mod Incoming
mod Lines
mod Timers
mod Operators
