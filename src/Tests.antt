-- ===== src/Tests.antt =====
-- The theorems at concrete inputs, a module per component.
mod Codecs
mod Gate
mod Stores
mod Service
mod Hierarchy
mod Routing
mod Handover
mod Decision
mod Accounts
mod Settings
mod Requests
