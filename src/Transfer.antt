-- ===== src/Transfer.antt =====
-- internal/infrastructure/transfer: an input file is sent in chunks and put together again.
pub mod Bytes
pub mod Sender
pub mod Active
pub mod Receiver
pub mod Count
pub mod Kept
pub mod Assembly
pub mod Accept
pub mod Accepted
pub mod Accepting
pub mod Delivery
pub mod Received
pub mod Ended
pub mod Complete
pub mod Verified
