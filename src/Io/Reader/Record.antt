-- ===== src/Io/Reader/Record.antt =====
-- One round of read_next_chunk_record that returns a record (io/ShardReader.cpp).
use bseal_cpp.Base.{
  ℕ, suc, ◌+◌, ◌-◌, ◌%◌, ◌^◌, ◌≤◌, ◌<◌, ◌≡◌, refl, sym, subst, ◌∙◌, ap, true, false, ◌==◌, inl, inr,
  length, length-append, List, ◌∷◌, ◌++◌, append_assoc, Option, some, ok, Result-cases, then-eq-ok,
  bind-eq-ok, ok_injective, arith, if◌then◌else◌,
}
use bseal_cpp.Frame.{ChunkFrameHeaderV1, chunk_frame_header_v1_size}
use bseal_cpp.Frame.Chunk.{
  parse_chunk_frame_header_v1, chunk_frame_v1_encoded_size, chunk_frame_v1_encoded_size_from_params,
}
use bseal_cpp.Frame.Chunk.Rules.{validate_chunk_frame_header_v1}
use bseal_cpp.Io.Stream.{Stream, ahead, read_exact}
use bseal_cpp.Io.Stream.Laws.{read_exact_lem}
use bseal_cpp.Io.Discover.{ShardInfo, shard_index, first_chunk_index}
use bseal_cpp.Io.Validate.{contains}
use bseal_cpp.Io.Reader.{
  ChunkRecord, ShardReader, is_final, should_be_final, check_place, check_lengths, check_body,
  read_record,
}

-- A record of the chunk `index` of an archive of `total` chunks, read from the shard: its header
-- bytes parse, its fields are those of the header, the body is the ciphertext with the tag, the last
-- chunk and no other is marked final, and only the last one may be short.
pub record IsChunk (total : ℕ) (shard : ShardInfo) (index : ℕ) (chunk : ChunkRecord) : Type 0 where
  pub header : ChunkFrameHeaderV1
  pub parsed : parse_chunk_frame_header_v1 chunk.frame_header_bytes ≡ ok header
  pub header_size : length chunk.frame_header_bytes ≡ 40
  pub numbered : chunk.chunk_index ≡ index
  pub header_numbered : header.global_chunk_index ≡ index
  pub placed : chunk.shard_index ≡ shard_index shard
  pub header_placed : header.shard_index ≡ shard_index shard
  pub plaintext : chunk.plaintext_size ≡ header.plaintext_len
  pub cipher : header.ciphertext_len ≡ header.plaintext_len
  pub tag : header.tag_len ≡ 16
  pub flags : chunk.frame_flags ≡ header.frame_flags
  pub body : length chunk.ciphertext ≡ chunk.plaintext_size + 16
  pub marked : is_final chunk.frame_flags ≡ (suc index == total)
  pub fits : chunk.plaintext_size ≤ shard.global_header.chunk_plain_size
  pub full :
      is_final chunk.frame_flags ≡ false
      → chunk.plaintext_size ≡ shard.global_header.chunk_plain_size

unfoldable pub frame_bytes : ChunkRecord → List ℕ
frame_bytes chunk = chunk.frame_header_bytes ++ chunk.ciphertext

size_from_params :
    (ciphertext_len tag_len size : ℕ)
    → tag_len ≡ 16
    → chunk_frame_v1_encoded_size_from_params ciphertext_len tag_len ≡ ok size
    → size ≡ 56 + ciphertext_len
unfolding chunk_frame_v1_encoded_size_from_params
size_from_params ciphertext_len tag_len size t e = ground arith

encoded_size_value :
    (header : ChunkFrameHeaderV1) (size : ℕ)
    → header.tag_len ≡ 16
    → chunk_frame_v1_encoded_size header ≡ ok size
    → size ≡ 56 + header.ciphertext_len
unfolding chunk_frame_v1_encoded_size
encoded_size_value header size t e = elim (Result-cases (validate_chunk_frame_header_v1 header)) [
  | inr (thrown, v) ↦ cc (rw (v, chunk_frame_v1_encoded_size) at e)
  | inl (u, v) ↦
      size_from_params header.ciphertext_len header.tag_len size t
        (rw (v, chunk_frame_v1_encoded_size) at e)
]

check_place_lem :
    (reader : ShardReader) (shard : ShardInfo) (header : ChunkFrameHeaderV1)
    → check_place reader shard header ≡ ok tt
    → (header.shard_index ≡ shard_index shard)
      × (header.global_chunk_index
          ≡ (first_chunk_index shard + reader.current_record_in_shard) % 2 ^ 64)
      × (contains header.global_chunk_index reader.seen_chunk_indices ≡ false)
unfolding check_place
check_place_lem reader shard header e = ground arith

check_lengths_lem :
    (reader : ShardReader) (shard : ShardInfo) (header : ChunkFrameHeaderV1)
    → check_lengths reader shard header ≡ ok tt
    → (header.tag_len ≡ 16)
      × (header.plaintext_len ≤ shard.global_header.chunk_plain_size)
      × (header.ciphertext_len ≡ header.plaintext_len)
      × (is_final header.frame_flags ≡ should_be_final reader header.global_chunk_index)
      × (is_final header.frame_flags ≡ false
          → header.plaintext_len ≡ shard.global_header.chunk_plain_size)
unfolding check_lengths
check_lengths_lem reader shard header e =
    (ground arith, ground arith, ground arith, ground arith, λ h. ground arith)

pub should_be_final_value :
    (reader : ShardReader) (index total : ℕ)
    → reader.expected_total_chunk_count ≡ total
    → should_be_final reader index ≡ (suc index == total)
unfolding should_be_final
should_be_final_value reader index total e = ground arith

-- What a round that returns a record leaves.
pub record Advances (reader : ShardReader) (shard : ShardInfo) (stream : Stream) (index : ℕ)
    (chunk : ChunkRecord) (reader' : ShardReader) : Type 0 where
  pub stream' : Stream
  pub is_chunk : IsChunk reader.expected_total_chunk_count shard index chunk
  pub consumed : ahead stream ≡ frame_bytes chunk ++ ahead stream'
  pub moved : stream'.position ≡ stream.position + length (frame_bytes chunk)
  pub same_shards : reader'.shards ≡ reader.shards
  pub same_pos : reader'.current_shard_pos ≡ reader.current_shard_pos
  pub same_total : reader'.expected_total_chunk_count ≡ reader.expected_total_chunk_count
  pub next_record : reader'.current_record_in_shard ≡ suc reader.current_record_in_shard
  pub next_stream : reader'.current_stream ≡ some stream'
  pub unseen : contains index reader.seen_chunk_indices ≡ false
  pub now_seen : reader'.seen_chunk_indices ≡ index ∷ reader.seen_chunk_indices

some_injective : {A : Type 0} {a b : A} → some a ≡ some b → a ≡ b
some_injective e = cc

pub read_record_lem :
    (reader reader' : ShardReader) (shard : ShardInfo) (stream : Stream)
    (outcome : Option ChunkRecord)
    → first_chunk_index shard + reader.current_record_in_shard < 2 ^ 64
    → read_record reader shard stream ≡ ok (outcome, reader')
    → (chunk : ChunkRecord) × (outcome ≡ some chunk)
      × Advances reader shard stream
          (first_chunk_index shard + reader.current_record_in_shard)
          chunk
          reader'
unfolding read_record frame_bytes
read_record_lem reader reader' shard stream outcome small e =
    let ((header_bytes, stream₁), got_header, e) =
      bind-eq-ok (read_exact stream chunk_frame_header_v1_size _) _ e in
    let (header, parsed, e) = bind-eq-ok (parse_chunk_frame_header_v1 header_bytes) _ e in
    let (place, e) = then-eq-ok (check_place reader shard header) _ e in
    let (lengths, e) = then-eq-ok (check_lengths reader shard header) _ e in
    let (size, sized, e) = bind-eq-ok (chunk_frame_v1_encoded_size header) _ e in
    let (_, e) =
      then-eq-ok (check_body shard stream₁.position (size - chunk_frame_header_v1_size)) _ e in
    let ((ciphertext, stream₂), got_body, e) =
      bind-eq-ok (read_exact stream₁ (size - chunk_frame_header_v1_size) _) _ e in
    let result = ok_injective e in
    let (ahead₁, length₁, position₁) = read_exact_lem stream stream₁ 40 _ header_bytes got_header in
    let (ahead₂, length₂, position₂) =
      read_exact_lem stream₁ stream₂ (size - 40) _ ciphertext got_body in
    let (in_shard, at, fresh) = check_place_lem reader shard header place in
    let (tag, fits, cipher, marked, full) = check_lengths_lem reader shard header lengths in
    let total_size = encoded_size_value header size tag sized in
    let index : header.global_chunk_index
        ≡ first_chunk_index shard + reader.current_record_in_shard =
      omega (arith, at, small) in
    let chunk : ChunkRecord = record {
      chunk_index = header.global_chunk_index;
      shard_index = header.shard_index;
      plaintext_size = header.plaintext_len;
      frame_flags = header.frame_flags;
      frame_header_bytes = header_bytes;
      ciphertext = ciphertext;
    } in
    let left : ShardReader = record reader {
      current_record_in_shard = reader.current_record_in_shard + 1;
      current_stream = some stream₂;
      seen_chunk_indices = header.global_chunk_index ∷ reader.seen_chunk_indices;
      saw_final_chunk = if is_final header.frame_flags then true else reader.saw_final_chunk;
    } in
    let returned : some chunk ≡ outcome = ap (λ r. r.0) result in
    let state : left ≡ reader' = ap (λ r. r.1) result in
    (
      chunk,
      sym returned,
      subst
          (λ r.
            Advances reader shard stream (first_chunk_index shard + reader.current_record_in_shard)
              chunk r)
          state
          (record {
            stream' = stream₂;
            is_chunk = record {
              header = header;
              parsed = parsed;
              header_size = length₁;
              numbered = index;
              header_numbered = index;
              placed = in_shard;
              header_placed = in_shard;
              plaintext = refl;
              cipher = cipher;
              tag = tag;
              flags = refl;
              body = omega (arith, length₂, total_size, cipher);
              marked =
                  marked
                  ∙ subst
                      (λ i.
                        should_be_final reader header.global_chunk_index
                        ≡ (suc i == reader.expected_total_chunk_count))
                      index (should_be_final_value reader header.global_chunk_index _ refl);
              fits = fits;
              full = full;
            };
            consumed =
                ahead₁
                ∙ ap (λ l. header_bytes ++ l) ahead₂
                ∙ sym (append_assoc header_bytes ciphertext (ahead stream₂));
            moved = omega (
              arith,
              position₁,
              position₂,
              length₁,
              length₂,
              length-append header_bytes ciphertext,
            );
            same_shards = refl;
            same_pos = refl;
            same_total = refl;
            next_record = omega arith;
            next_stream = refl;
            unseen = subst (λ i. contains i reader.seen_chunk_indices ≡ false) index fresh;
            now_seen = ap (λ i. i ∷ reader.seen_chunk_indices) index;
          }),
    )
