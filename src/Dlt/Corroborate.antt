-- ===== src/Dlt/Corroborate.antt =====
-- Checking the declared trace against the logs, src/dlt/corroborate.py: the lines of the window
-- (Scanning) and the verdict (Reading).
pub mod Scanning
pub mod Reading
pub mod Accusing
pub mod Grounded
pub mod Citing
mod Examples
