-- ===== src/Dlt/Versions.antt =====
-- Parsing and ordering of version strings, src/dlt/versions.py. A text is the list of its code
-- points, taken to be ASCII. `DLT_VERSION_PATTERN` is a compiled regular expression of Python's
-- `re`: the argument `custom` gives its `version` group in a text, none where no pattern is set
-- or nothing is found.
mod Image
mod Parse
mod Compare
pub mod Order
pub mod Lowest
pub mod Reading
pub mod Tags
mod Examples
unfoldable pub use Image.*
unfoldable pub use Parse.*
unfoldable pub use Compare.*
