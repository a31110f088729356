-- ===== src/Paged.antt =====
-- src/internal/PagedFile.cpp: a file read in pages, for views that touch few places. `Cache` has
-- the pages and Ensure; `Slice` compares it with the bytes of the file.
pub mod Cache
mod Slice
mod Tests
