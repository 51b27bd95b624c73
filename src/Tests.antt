-- ===== src/Tests.antt =====
-- Examples of the theorems at concrete inputs.
mod Codec
mod Json
mod Store
mod Service
mod Tokens
mod Accounts
mod Limits
mod Settings
mod Sessions
mod Handlers
mod Server
mod Observability
mod Postgres
