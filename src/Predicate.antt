-- ===== src/Predicate.antt =====
-- src/scan/predicate.rs: filters on columns and on rows, their evaluation to masks, and what the
-- statistics of a row group prove of them.
pub mod Mask
pub mod Kept
pub mod Order
pub mod Search
pub mod Scalar
pub mod Value
pub mod Bloom
pub mod InSet
pub mod Column
pub mod Skip
pub mod Outside
pub mod Pruned
pub mod Pruning
pub mod Row
pub mod Groups
pub mod Rows
pub mod LeftOut
pub mod Proven
pub mod Held
pub mod Matched
pub mod Verdicts
pub mod Members
mod Tests
pub mod Union
pub mod Admitted
pub mod Listed
pub mod Chosen
pub mod United
