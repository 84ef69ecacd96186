-- ===== src/Python.antt =====
-- The part of Python's language and standard library that the programs use: text, JSON values,
-- regular expressions.
mod Text
pub mod Lists
pub mod Sets
pub mod Find
pub mod Json
pub mod Regex
unfoldable pub use Text.*
