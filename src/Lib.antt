-- ===== src/Lib.antt =====
-- libthe-seed: the engine runtime that loads plugins, resource paks and scenes, lists the libraries
-- a program needs and signs programs. The model covers parts that read untrusted bytes, and the
-- loading of plugins by threads.
--
-- Parts and files (paths from the repository's root):
--   Prelude       shared names, list lemmas, std::string::find, and the Outcome of a call
--   Bounded       src/internal/BoundedBytes.hpp, ByteSwap.hpp: checked arithmetic (Range), byte order
--                 (Order), ByteSpan::Read and Sub (Span), ByteSpan::CString (Text),
--                 MutableByteSpan (Writing), and the unchecked reads of a vector (Elements)
--   Elf           src/internal/ElfParser.cpp: program headers and dynamic section (Tables), the
--                 listing (Names); it reads through Bounded; StringTable has the proofs about the table of
--                 the names
--   MachO         src/internal/MachOLayout.cpp and src/MachOParser.cpp: the magic (Defs), one load
--                 command (Commands), one program (Slice), universal files (Container), the listing
--                 (Parser); it reads through Bounded
--   Pe            src/internal/PeParser.cpp: headers and RvaToOffset (Headers), the descriptor walks
--                 (Imports), the names (Names); it reads through Bounded
--   Deps          src/DependencyLister.cpp and src/internal/DependencyGraph.hpp: the graph (Graph),
--                 the format of a file (Format), from a name to its node (Resolve), the walk from each
--                 input (Credits), the request (Report); files go to Elf, MachO and Pe, and the file
--                 system is a parameter. Resolution says, without the maps of the graph, what a
--                 recorded name resolves to
--   Authenticode  src/internal/AuthenticodeDigestField.cpp: the DER elements (Elements), the object
--                 identifiers (Oid), the digest field (Field); it reads through Bounded
--   Plugins       src/internal/PluginSearch.cpp: names and the search list (Places), SearchFirst
--                 (Search); src/internal/PluginCache.hpp: Get, Load, Fail and PathAdd as steps of
--                 threads (Cache), where a step is what a thread does under one lock or between two;
--                 file system and dynamic loader are parameters
--   RandomAccess  src/internal/RandomAccessFile.cpp: ReadAt on POSIX (Reading); pread is a parameter
--   Paged         src/internal/PagedFile.cpp: the pages held and Ensure (Cache); reading the file is a
--                 parameter
--   NameParser    src/internal/NameParser.cpp: plugin and pak names, and their grammar
--   Pak           src/internal/PakIndex.cpp: the description line (Description), headerSize
--                 (Decimal), the index (Index); the JSON library (Json) and the open file (File) are
--                 parameters
--
-- Conventions. Functions keep the source's names in snake_case. A std::uint64_t is a number below 2
-- ^ 64, and its wrap-around is written out where it could happen. A std::runtime_error is a value
-- that keeps the words and numbers of its text. A memory access outside a buffer, undefined in C++,
-- is the outcome `fault`, and a view reads its buffer only through `memory`, which tests the true
-- bounds; `bytes[i]` of a vector is `element`, which is `fault` past the end. The walks of
-- ListDependencies number the inputs in 32 bits, which is exact for fewer than 2 ^ 32 of them.
--
-- Bounds and fuel. A file held in memory is below 2 ^ 63 bytes, the limit of a std::vector. The
-- loop of DescriptionRead runs on scan / chunk_size + 1 rounds, since each round but the last reads
-- a whole chunk. The descriptor walks of the PE listing run on file_size + 1 rounds, since each
-- round passes 20 or 32 bytes of the file; running out of them is `fault`. The walk of
-- ListDependencies runs on a round for each node, since it queues a node once. Its loop over the
-- nodes runs on a given number of rounds, and a round for each key and recorded name of the file
-- system is enough, since each new node has one of them that no other node has. ReadAt runs on
-- given rounds: one for each byte asked for and each round a signal may interrupt are enough. All
-- other loops recur on a list or on the entries left.
--
-- Not modelled: the signers, the compound file reader and writer, the pak loader, scene loading and
-- file replacement; the system's file calls, which are I/O.
pub mod Prelude
pub mod Bounded
pub mod Elf
pub mod NameParser
pub mod Pak
pub mod MachO
pub mod Pe
pub mod Paged
pub mod Authenticode
pub mod Plugins
pub mod RandomAccess
pub mod Deps
