-- ===== src/Pe.antt =====
-- src/internal/PeParser.cpp and PeParser.hpp: the libraries that a PE file imports. `Headers`
-- reads the headers and the sections, `Imports` walks the descriptors, `Names` reads the names.
pub mod Headers
pub mod Imports
pub mod Names
mod Safety
pub mod Listing
mod Fresh
mod Tests
