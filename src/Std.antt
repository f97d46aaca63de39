-- ===== src/Std.antt =====
-- What the program uses of Rust's standard collections and integer encodings.
pub mod HashMap
pub mod HashSet
pub mod Encoding
pub mod Options
pub mod Result
pub mod Slices
pub mod Texts
