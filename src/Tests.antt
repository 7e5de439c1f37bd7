-- ===== src/Tests.antt =====
-- Concrete runs: each applies a theorem of the library to inputs that its conditions hold for.
mod Access
mod Breakers
mod Resets
mod Routing
mod Chunks
mod Keys
mod Memories
mod Tokens
mod Meters
mod Turns
mod Invites
mod Retries
mod Composed
