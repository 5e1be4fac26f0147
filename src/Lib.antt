-- ===== src/Lib.antt =====
-- NepTools reads, edits and writes the script and archive files of some games. This library models
-- its core: the sources that files are read from, the context that holds the items and labels of a
-- file, the instructions of its script formats, the tables of messages beside the scripts, and the
-- sinks that files are written to.
--
-- Parts, and how they interact. A `Source` (src/source.hpp, src/source.cpp) is a window on a file,
-- which a provider reads in chunks and keeps the last of. A `Context` (src/format/context.cpp) owns
-- the items that a file is split into, and gives out labels that point into them; a parser asks it
-- for a label to each file position it meets. An instruction (src/format/stcm/instruction.cpp,
-- src/format/stsc/instruction.cpp) is parsed from a source into a record that holds labels, and is
-- dumped with the positions that these have then.
--
-- Files:
-- - `Prelude`: library names, and what the parts share: bytes and little-endian integers
--   (`Prelude.Bytes`), errors (`Prelude.Result`), text (`Prelude.Text`), masks (`Prelude.Bits`) and
--   blocks of lists (`Prelude.Slices`).
-- - `Source`: `Source` and its operations (src/source.hpp). `Source.Reads` has lemmas on windows,
--   `Source.Struct` and `Source.Consumed` are about `ReadGen` of packed structures,
--   `Source.Provider` is the provider's LRU of chunks, and `Source::Pread_`, `GetChunk` and `Dump`
--   over it (src/source.cpp).
-- - `Context`: src/format/context.cpp with `Item` and `Label` of src/format/item.hpp and
--   src/format/item_base.hpp. `Context.Labels`, `Context.Setting`, `Context.Naming` and
--   `Context.Layout` have its lemmas. `Context.Slice` is `Item::Slice` of src/format/item.cpp,
--   and `Context.Split` is `RawItem::Split2` of src/format/raw_item.cpp, and `Item::Replace`.
-- - `Stcm`: `Stcm.Word` and `Stcm.Param` are the parameters of an instruction, `Stcm.Instruction`
--   is its header and its parse (src/format/stcm/instruction.cpp and
--   src/format/stcm/instruction.hpp).
-- - `Stsc`: src/format/stsc/instruction.cpp and src/format/stsc/instruction.hpp. `Stsc.Noire` and
--   `Stsc.Potbb` are the opcode tables of the two flavors, `Stsc.Simple`, `Stsc.RndJump`,
--   `Stsc.JumpIf` and `Stsc.JumpSwitch` the classes of instructions, and `Stsc.Instruction` reads
--   an opcode and parses the rest by its class. `Stsc.Text` is the text form of a script
--   (src/format/stsc/file.cpp), where `boost::replace_all_copy` is a parameter, and
--   `Stsc.Header` its header (src/format/stsc/header.hpp and src/format/stsc/header.cpp).
-- - `Sink`: src/sink.hpp, and `SimpleSink` of src/sink.cpp, which writes a file through a buffer.
--   `Sink.Mapped` is `MmapSink` of src/sink.cpp, whose buffer is a mapped block of the file, and
--   `MemorySink`; `Sink.Same` is the file that all of them promise.
-- - `Endian`: src/endian.hpp, the two byte orders, on a machine that keeps the least significant byte
--   first.
-- - `Gbnl`: src/format/gbnl.hpp and src/format/gbnl.cpp. `Gbnl.Types` are the descriptors of a message
--   type, `Gbnl.Strings` is `RecalcSize` with the strings that `Dump_` writes, `Gbnl.Dump` is `Dump_`
--   with `DumpHeader` and `GetSize`, `Gbnl.Dump.Heads` is the header as `Parse_` reads
--   it, `Gbnl.Dump.Headed` a file as its header describes it, `Gbnl.Parse` is `Parse_`, and `Gbnl.Ids` are the ids of the text
--   form, `GetId` and `FindDst`.
-- - `Cl3`: src/format/cl3.hpp and src/format/cl3.cpp, archives of files. `Cl3.Dump` is `Dump_` with
--   `IndexOf`, `Cl3.Sizes`, `Cl3.Placed`, `Cl3.Written`, `Cl3.Parts` and `Cl3.Archive` are about what it
--   writes. `Cl3.Parse` is `Parse_`, and `Cl3.Linked`, `Cl3.Entries` and `Cl3.Parsed` are about what it
--   accepts.
--   `FixedString` and `OrderedMap` of libshit are the parameter `Libshit`, and `Cl3.Placed.Behaves` is
--   what they promise. A file in the archive is a `Dumpable`: its `GetSize`, and what its `Dump` writes.
-- - `Pattern`: src/pattern.hpp and src/pattern.cpp, the search for bytes under a mask. `Pattern.Runs` is
--   about the run that is searched for, `Pattern.Search` about the places where the pattern matches,
--   `Pattern.Found` and `Pattern.Unique` about what is found. `boost::algorithm::boyer_moore` is a
--   parameter, and `Pattern.Search.FindsFirst` is what it promises. `Pattern.Literal` is
--   src/pattern_parse.hpp, the patterns that literals stand for.
--
-- State is passed explicitly: an operation on a context or a source returns the new one. Items are
-- known by numbers and labels by their names, which are unique. Exceptions and failed assertions
-- are values of `Prelude.Result.Result`. Integers are natural numbers with the wrap-around of their
-- width written out; `FilePosition` and `size_t` have 64 bits.
--
-- Bounds and fuel. The loops over chunks take fuel that counts rounds; each round moves at least
-- one byte, so that the number of bytes is enough. The loop of `Pad_` takes the number of zeros.
-- The search of `CreateLabelFallback` takes the number of labels, since each name that is taken is
-- the name of another label. The loop of `MaybeFind` moves on with each round, so that the length of
-- the data is enough, and each step of `PatternParse` but the last takes a character. The theorems on
-- parsing ask that a window is smaller than 2^63 bytes, as every file is, and those on the dump of tables
-- and archives that these are smaller than 4 GiB, since their offsets have 32 bits.
--
-- Not modelled: descriptors and memory maps (`Libshit::LowIo` is the parameter `LowIo` of
-- `Source.Provider`), with it that an empty file cannot be mapped; the assertion of `RecalcSize` that
-- each message has the type of its table, which the theorems ask for where it matters
-- (`Gbnl.Dump.Sizes.HaveType`); printing (`Inspect`), the Lua bindings, `WriteTxt_` and `ReadTxt_` of
-- tables (src/format/gbnl.cpp), the directories that an archive is unpacked to (src/format/cl3.cpp), and
-- the command line tools.
pub mod Cl3
pub mod Context
pub mod Endian
pub mod Gbnl
pub mod Pattern
pub mod Prelude
pub mod Sink
pub mod Source
pub mod Stcm
pub mod Stsc
