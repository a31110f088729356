-- ===== src/Pak.antt =====
-- Resource paks. `File` is the open file as the pak code sees it, `Decimal`, `Description` and
-- `Index` are src/internal/PakIndex.cpp; `Tiling`, `ByName` and `FirstLine` have the proofs.
pub mod File
pub mod Decimal
pub mod Description
pub mod FirstLine
pub mod Json
pub mod Index
pub mod ByName
pub mod Tiling
mod Tests
