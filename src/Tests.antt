-- ===== src/Tests.antt =====
-- Runs of the definitions, and the theorems applied to concrete documents, messages and servers.
mod Data
mod Server
mod Encoding
mod Leaves
mod Messages
mod Network
mod Cursors
mod Clients
mod Documents
mod Interpreter
mod Memory
