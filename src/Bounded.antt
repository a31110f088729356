-- ===== src/Bounded.antt =====
-- src/internal/BoundedBytes.hpp and src/internal/ByteSwap.hpp: bounds-checked access to untrusted
-- bytes. `Range` has the checked arithmetic, `Order` the byte order of a number, `Span` and `Text`
-- reading, and `Writing` writing, about which is `Stored`. `Elements` has the reads of a vector that
-- no class checks.
pub mod Range
pub mod Order
pub mod Elements
pub mod Span
pub mod Writing
mod Stored
pub mod Text
pub mod Listing
mod Tests
