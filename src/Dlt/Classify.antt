-- ===== src/Dlt/Classify.antt =====
-- The failure classification of src/dlt/classify.py. What it reads from the environment are the
-- fields of `ClassifySettings`; the reason-code catalog is the optional callback `code_class`.
mod Codes
mod Table
mod Classes
pub mod Lookup
pub mod Extract
pub mod Catalog
mod Examples
unfoldable pub use Codes.*
unfoldable pub use Table.*
unfoldable pub use Classes.*
