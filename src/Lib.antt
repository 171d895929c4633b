-- ===== src/Lib.antt =====
-- bseal encrypts a directory tree into shard files. Encryption walks the tree into a stream of records
-- (archive), cuts the stream into chunks that worker threads encrypt (pipeline), and writes each as a
-- frame into a shard behind two public headers (io). Decryption authenticates the headers, derives the
-- keys (crypto), decrypts the frames, restores their order and feeds the bytes to the archive reader.
--
-- Which file models which part; paths are from the root of the repository:
--   Base      lists, options and results, and the exceptions of src/common/Errors.hpp
--   Checked   src/common/CheckedArithmetic.hpp
--   Endian    src/common/Endian.hpp and the two `Reader` classes, a parser over the bytes that are left
--   Frame     src/io/ShardFrame: Global, Shard and Chunk for the three headers, each with the rejection
--             rules of its parser, Mac for the header hash and the header MAC
--   Archive   src/archive: Record and Meta for RecordFormat, Path for PathSanitizer, Reader for
--             ArchiveReader with its state, the handlers, and Stream for `consume` and `finish`
--   Io        src/io: Stream for a file that is read, Discover, Validate and Reader for ShardReader, Writer
--             for ShardWriter, with Agreement for its planner and Written for all its calls,
--             and ReadBack for a reader over the files of a writer
--   App       src/app/CoreApi.cpp: Plan for plan_shards and fill_per_shard_hashes, Padding for
--             compute_padding
--   Crypto    src/crypto: Kdf and Keys for KeySchedule
--   Pipeline  src/pipeline: Queue for WorkQueue, Chunks for producer_main, Order for
--             ordered_writer_main and ordered_plaintext_consumer_main
--   Tests     the properties at concrete inputs
--
-- How the code is carried over. A struct is a record, an enum a data type, and a function that throws
-- returns a Result: its value, or the exception with the constant part of its message. Numbers are
-- natural numbers; arithmetic that wraps in the source is written modulo 2 ^ 64, and what the C++ types
-- guarantee of a field stands in the records named Fits. A byte buffer is a list of numbers below 256.
-- A path is its generic string, or the list of its parts behind the root directory, the last
-- one first; a path with a trailing slash has an empty last part.
--
-- Code from elsewhere is a parameter: BLAKE3, HMAC, HKDF and Argon2id as functions of their inputs, and
-- the file system as a function that says whether an effect succeeds after the effects so far. The
-- state of a reader has the log of those effects. Threads interleave whole operations of a queue, each
-- of which runs under one mutex; every order of them is a value of `Runs`. The order in which chunks
-- arrive at an ordered thread is an arbitrary list, and what failure_state.failed() answers is a parameter,
-- like the answers of the queue to the producer. An exception of the archive writer is left out there.
--
-- The reader of shards gets the bytes of a path from a function; the writer keeps the
-- files that it creates in its state, and takes the random names from a sequence. The bodies of the
-- frames, which the AEAD computes, are an arbitrary sequence of byte lists.
--
-- Loops run on fuel. A call of the shard reader gets one round more than there are shards, each of which
-- closes one. `consume` gets one round more than there are bytes, and every round takes the nine
-- bytes of a prefix at least. The loops of plan_shards get one round more than there are chunks, and
-- each takes a chunk. A power of two is found in 64 doublings. The copy loop of the producer gets as
-- many rounds as the record has bytes.
--
-- Not modelled: the walk of the temporary tree when an extraction is committed, the AEAD, secure memory,
-- file access, the platform layer, the command line and the graphical interface, since they are
-- system calls, third-party code or glue; the archive writer and the writer to standard output.
pub mod Base
pub mod Checked
pub mod Endian
pub mod Frame
pub mod Io
pub mod Archive
pub mod App
pub mod Crypto
pub mod Pipeline
pub mod Tests
