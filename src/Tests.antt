-- ===== src/Tests.antt =====
-- Runs of the definitions on concrete inputs, and the theorems at such inputs.
mod Protocol
mod Index
mod Storage
mod Backend
mod Server
