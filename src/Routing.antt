-- ===== src/Routing.antt =====
-- delegatedrouting: the listener that turns the CIDs that a Kubo node announces into advertisements.
pub mod Queue
pub mod State
pub mod Chunks
pub mod Store
pub mod Snapshot
pub mod Publish
pub mod Listener
pub mod Requests
pub mod Steps
pub mod Removal
pub mod Published
pub mod Fresh
pub mod Answers
pub mod Flushed
pub mod Provided
pub mod Linked
pub mod Sizes
pub mod Started
pub mod Restore
pub mod Restored
pub mod Sample
mod Tests
pub mod Slices
