-- ===== src/Dlt.antt =====
-- The dead-letter lane, src/dlt/: its parts, and sample data for their examples.
pub mod Versions
pub mod Findings
pub mod Confidence
pub mod AutoReplay
pub mod Classify
pub mod Parked
pub mod Claims
pub mod CodeCheck
pub mod Reuse
pub mod Corroborate
pub mod Identity
pub mod Groups
pub mod Window
mod Samples
