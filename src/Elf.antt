-- ===== src/Elf.antt =====
-- src/internal/ElfParser.cpp and ElfParser.hpp: the names an ELF file records. `Tables` reads
-- the program headers and the dynamic section, `Names` the whole file; `Safety` has the proofs,
-- `StringTable` those about the table of the names.
pub mod Tables
pub mod Names
pub mod Safety
mod StringTable
pub mod Tests
