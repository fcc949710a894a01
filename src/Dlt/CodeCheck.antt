-- ===== src/Dlt/CodeCheck.antt =====
-- The replay precheck, src/dlt/code_check.py: where the frames of a failure stand in the source,
-- what the repository says of their files, and the verdict.
pub mod Frames
pub mod Probes
pub mod Shipping
pub mod Evaluation
pub mod Deployed
pub mod Asked
pub mod Untouched
pub mod Highest
mod Examples
