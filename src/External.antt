-- ===== src/External.antt =====
-- Third-party code that the crate calls: interfaces with the behaviour that their documentation
-- states, each with an implementation that meets it.
pub mod BitArray
pub mod ArrayVec
