-- ===== src/MachO.antt =====
-- src/internal/MachOLayout.cpp, MachOLayout.hpp, MachODefs.hpp and src/MachOParser.cpp: the layout
-- of a Mac program. `Defs` has the data and the magic, `Commands` one load command, `Slice` one
-- program, `Container` a thin or universal file, `Parser` the public listing.
pub mod Defs
pub mod Commands
pub mod Slice
mod Frame
mod CommandBounds
mod SliceBounds
mod Disjoint
mod ContainerBounds
pub mod Listing
mod Tests
pub mod Container
pub mod Parser
