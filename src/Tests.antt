-- ===== src/Tests.antt =====
-- The theorems of the library at concrete inputs.
mod Fixtures
mod Pools
mod Sets
mod Locks
mod Times
mod Streams
mod Contexts
mod Calls
mod Wire
mod Sessions
mod Verdicts
mod Runs
mod Handlers
mod Delivery
mod Frames
mod Hearings
mod Lifetimes
mod Ends
