-- ===== src/RandomAccess.antt =====
-- src/internal/RandomAccessFile.cpp: reading at a position, on POSIX. Reading is the loop, and Exact
-- is about its result.
pub mod Reading
mod Exact
mod Tests
