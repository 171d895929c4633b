-- ===== src/Io/Discover.antt =====
-- ShardInfo (io/ShardReader.hpp), read_shard_info and ShardReader::discover (io/ShardReader.cpp).
-- BLAKE3 is the parameter `blake3`. A directory is the list of its entries, in the order in which
-- the iterator yields them.
pub mod Sorted
use bseal_cpp.Base.{
  ℕ, ◌+◌, ◌-◌, ◌^◌, ◌%◌, Bool, not, ◌&&◌, ltb, leb, ◌==◌, length, take, drop, List, [], ◌∷◌, Option,
  none, some, Result, ok, err, error, invalid_argument, reject_if, ◌>>=◌, ◌>>◌, if◌then◌else◌,
}
use bseal_cpp.Endian.{text_bytes}
use bseal_cpp.Frame.{
  GlobalPublicHeaderV1, ShardPublicHeaderV1, global_public_header_v1_size,
  shard_public_header_v1_size,
}
use bseal_cpp.Frame.Bytes.{equal_bytes}
use bseal_cpp.Frame.Global.{parse_global_public_header}
use bseal_cpp.Frame.Shard.{parse_shard_public_header}
use bseal_cpp.Frame.Mac.{compute_public_header_hash}
use bseal_cpp.Io.Stream.{Stream, read_exact}

pub record ShardInfo : Type 0 where
  pub path : List ℕ
  pub global_header : GlobalPublicHeaderV1
  pub shard_header : ShardPublicHeaderV1
  pub public_header_hash : List ℕ
  pub file_size : ℕ

abbrev pub shard_index : ShardInfo → ℕ
shard_index shard = shard.shard_header.shard_index

abbrev pub first_chunk_index : ShardInfo → ℕ
first_chunk_index shard = shard.shard_header.first_global_chunk_index

abbrev pub chunk_count : ShardInfo → ℕ
chunk_count shard = shard.shard_header.shard_chunk_count

abbrev pub shard_payload_len : ShardInfo → ℕ
shard_payload_len shard = shard.shard_header.shard_payload_len

-- 192 + 80
abbrev pub payload_offset : ℕ
payload_offset = global_public_header_v1_size + shard_public_header_v1_size

-- The name of a file ends in ".bin", which is an extension if something stands before it.
unfoldable pub has_bin_extension : List ℕ → Bool
has_bin_extension name =
    ltb 4 (length name) && equal_bytes (drop (length name - 4) name) (text_bytes ".bin")

-- A file that cannot be opened has no content.
pub record DirectoryEntry : Type 0 where
  pub path : List ℕ
  pub is_regular_file : Bool
  pub content : Option (List ℕ)

-- std::sort by shard_index. Among equal indices, of which validate_shards admits none, the standard
-- leaves the order open.
unfoldable pub insert_shard : ShardInfo → List ShardInfo → List ShardInfo
insert_shard shard [] = shard ∷ []
insert_shard shard (other ∷ shards) =
    if ltb (shard_index other) (shard_index shard)
    then other ∷ insert_shard shard shards
    else shard ∷ other ∷ shards

unfoldable pub sort_shards : List ShardInfo → List ShardInfo
unfolding insert_shard
sort_shards [] = []
sort_shards (shard ∷ shards) = insert_shard shard (sort_shards shards)

module _ (blake3 : List ℕ → List ℕ) where
  -- The headers at the front of a file of these bytes, and the test of its size, which is computed
  -- modulo 2 ^ 64.
  unfoldable pub read_headers : List ℕ → List ℕ → Result ShardInfo
  read_headers path bytes = do
    (global_bytes, stream) ←
        read_exact (record { bytes = bytes; position = 0 }) global_public_header_v1_size
          "truncated global public header"
    global_header ← parse_global_public_header global_bytes
    (shard_bytes, stream) ←
        read_exact stream shard_public_header_v1_size "truncated shard public header"
    shard_header ← parse_shard_public_header shard_bytes
    reject_if (leb global_header.shard_count shard_header.shard_index) "shard_index >= shard_count"
    reject_if (not (length bytes == (payload_offset + shard_header.shard_payload_len) % 2 ^ 64))
        "file size mismatch"
    phash ← compute_public_header_hash blake3 global_header shard_header
    ok (record {
      path = path;
      global_header = global_header;
      shard_header = shard_header;
      public_header_hash = phash;
      file_size = length bytes;
    })

  unfoldable pub read_shard_info : DirectoryEntry → Result ShardInfo
  unfolding read_headers
  read_shard_info entry = elim entry.content [
    | none ↦ err (error "failed to open shard file")
    | some bytes ↦ read_headers entry.path bytes
  ]

  -- The loop over the directory.
  unfoldable pub read_entries : List DirectoryEntry → Result (List ShardInfo)
  unfolding read_shard_info
  read_entries [] = ok []
  read_entries (entry ∷ entries) =
      if not (entry.is_regular_file && has_bin_extension entry.path)
      then read_entries entries
      else do shard ← read_shard_info entry; shards ← read_entries entries; ok (shard ∷ shards)

  -- `none` is a directory that does not exist.
  unfoldable pub discover : Option (List DirectoryEntry) → Result (List ShardInfo)
  unfolding read_entries
  discover none = err (invalid_argument "input shard directory does not exist")
  discover (some entries) = do
    shards ← read_entries entries
    reject_if (length shards == 0) "no framed .bin shard files found in input directory"
    ok (sort_shards shards)
