-- ===== src/Sparse.antt =====
-- task1-sparse/myprogram.c: a copier that leaves holes for blocks of zeros.
pub mod Disk
pub mod Block
pub mod Copy
pub mod Main
pub mod Correct
pub mod Exits
pub mod Zeros
pub mod Content
pub mod Finishes
mod Tests
