-- ===== src/Std.antt =====
-- What the program uses of the Rust standard library's texts and numbers.
pub mod Results
pub mod Utf8
pub mod Str
pub mod Number
pub mod Find
pub mod Sort
pub mod Split
pub mod Distinct
