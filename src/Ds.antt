-- ===== src/Ds.antt =====
-- The data structures of `ds/`: lists, hashes and sets of strings.
pub mod Lists
pub mod Sets
pub mod Hashes
