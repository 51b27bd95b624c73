-- ===== src/Go.antt =====
-- What the program takes from Go's standard library: maps, `sort.SliceStable`, `sort.Search`.
pub mod Url
pub mod Map
pub mod Sort
pub mod Search
