-- ===== src/Tests.antt =====
-- Runs of the modelled functions on concrete inputs, and the theorems at such inputs.
mod Machine
mod Retry
mod Decode
mod Keys
mod Tokens
mod Tab
mod Webhooks
mod Endpoint
mod Mobile
mod Grants
mod Cli
mod Resource
