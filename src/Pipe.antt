-- ===== src/Pipe.antt =====
-- pipe.rs: transfers over a hardware pipe. The pipe is an implementation of a trait outside the
-- repository, so its answers are a parameter: a list of replies, one for each call that waits.
pub mod Bus
pub mod Split
pub mod Transfer
pub mod Control
pub mod Loops
pub mod Ends
pub mod Completes
pub mod Retry
pub mod Sending
pub mod Receiving
pub mod Commands
pub mod Requests
pub mod Interrupts
pub mod Addressing
pub mod Assigning
pub mod Attaching
mod Tests
