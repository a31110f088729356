-- ===== src/Elf/StringTable.antt =====
-- The string table that ParseElf of src/internal/ElfParser.cpp cuts out of a PT_LOAD segment.
use libthe_seed.Prelude.{ℕ, ◌+◌, ◌-◌}
use libthe_seed.Elf.Tables.{LoadSegment}

-- The place of the table in the file, without a wrap.
abbrev pub table_offset : LoadSegment → ℕ → ℕ
table_offset segment va = segment.offset + (va - segment.vaddr)
