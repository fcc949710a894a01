-- ===== src/Dlt/Parked.antt =====
-- Packets waiting for a deploy, src/dlt/parked.py.
pub mod Entries
mod Parking
mod Releasing
pub mod Keeping
pub mod Gating
pub mod Accounting
pub mod Release
mod Examples
unfoldable pub use Entries.*
unfoldable pub use Parking.*
unfoldable pub use Releasing.*
