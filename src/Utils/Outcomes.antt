-- ===== src/Utils/Outcomes.antt =====
-- What operators said of resolutions, src/utils/outcomes.py: recording a verdict, and the two
-- reports. The rates of a report's rows are left to its reader: quotients of the counts that the
-- rows hold, rounded.
pub mod Recording
pub mod Judging
pub mod Report
pub mod Totals
mod Examples
