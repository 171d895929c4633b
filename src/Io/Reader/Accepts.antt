-- ===== src/Io/Reader/Accepts.antt =====
-- A record that stands ahead is read (read_next_chunk_record of io/ShardReader.cpp).
use bseal_cpp.Base.{
  drop, drop-append_length, ℕ, suc, ◌+◌, ◌-◌, ◌%◌, ◌^◌, ◌≤◌, ◌<◌, ◌≡◌, refl, sym, subst, ◌∙◌, ap,
  Bool, true, false, not, ltb, ◌==◌, ==_iff, length, length-append, List, ◌∷◌, ◌++◌, append_assoc,
  Option, some, Result, ok, err, invalid_argument, reject_if, ◌>>◌, then-eq-ok, arith,
  if◌then◌else◌,
}
use bseal_cpp.Frame.{ChunkFrameHeaderV1, chunk_frame_header_v1_size}
use bseal_cpp.Frame.Bytes.{parse_block_inverse}
use bseal_cpp.Frame.Chunk.{
  parse_chunk_frame_header_v1, chunk_frame_v1_encoded_size, chunk_frame_v1_encoded_size_from_params,
  read_chunk, truncated_frame,
}
use bseal_cpp.Frame.Chunk.Rules.{validate_chunk_frame_header_v1, check_chunk_header}
use bseal_cpp.Io.Stream.{Stream, ahead, read_exact}
use bseal_cpp.Io.Stream.Laws.{drop-drop, read_exact_ok}
use bseal_cpp.Io.Discover.{
  ShardInfo, shard_index, first_chunk_index, shard_payload_len, payload_offset,
}
use bseal_cpp.Io.Validate.{contains}
use bseal_cpp.Io.Reader.{
  ChunkRecord, ShardReader, is_final, should_be_final, check_place, check_lengths, check_body,
  read_record,
}
use bseal_cpp.Io.Reader.Record.{IsChunk, frame_bytes, should_be_final_value}

parsed_valid :
    (bytes : List ℕ) (header : ChunkFrameHeaderV1)
    → parse_chunk_frame_header_v1 bytes ≡ ok header
    → validate_chunk_frame_header_v1 header ≡ ok tt
unfolding parse_chunk_frame_header_v1 check_chunk_header
parsed_valid bytes header e =
    let (_, rest, _, rules) =
      parse_block_inverse 40 truncated_frame read_chunk check_chunk_header bytes header e in
    (then-eq-ok (validate_chunk_frame_header_v1 header) _ rules).0

size_value :
    (ciphertext_len tag_len : ℕ)
    → tag_len ≡ 16
    → ciphertext_len < 2 ^ 32
    → chunk_frame_v1_encoded_size_from_params ciphertext_len tag_len ≡ ok (56 + ciphertext_len)
unfolding chunk_frame_v1_encoded_size_from_params
size_value ciphertext_len tag_len t small = ground arith

module _ (reader : ShardReader) (shard : ShardInfo) (stream : Stream) (index : ℕ)
    (chunk : ChunkRecord) (is_chunk : IsChunk reader.expected_total_chunk_count shard index chunk)
    (plain : shard.global_header.chunk_plain_size < 2 ^ 32)
    (place : first_chunk_index shard + reader.current_record_in_shard ≡ index)
    (small : index < 2 ^ 64) (unseen : contains index reader.seen_chunk_indices ≡ false)
    (one_final : is_final chunk.frame_flags ≡ true → reader.saw_final_chunk ≡ false) where
  accepts_place : check_place reader shard is_chunk.header ≡ ok tt
  unfolding check_place
  accepts_place =
      let at : is_chunk.header.global_chunk_index
          ≡ (first_chunk_index shard + reader.current_record_in_shard) % 2 ^ 64 =
        omega (arith, is_chunk.header_numbered, place, small) in
      let fresh : contains is_chunk.header.global_chunk_index reader.seen_chunk_indices ≡ false =
        subst (λ i. contains i reader.seen_chunk_indices ≡ false) (sym is_chunk.header_numbered)
          unseen in
      rw
        (
          (==_iff is_chunk.header.shard_index (shard_index shard)).1 is_chunk.header_placed,
          (==_iff is_chunk.header.global_chunk_index
                ((first_chunk_index shard + reader.current_record_in_shard) % 2 ^ 64)).1
              at,
          fresh,
          check_place,
        )
        refl

  accepts_lengths : check_lengths reader shard is_chunk.header ≡ ok tt
  unfolding check_lengths
  accepts_lengths =
      let should : should_be_final reader is_chunk.header.global_chunk_index
          ≡ is_final is_chunk.header.frame_flags =
        should_be_final_value reader is_chunk.header.global_chunk_index
          reader.expected_total_chunk_count refl
        ∙ ap (λ i. suc i == reader.expected_total_chunk_count) is_chunk.header_numbered
        ∙ sym is_chunk.marked
        ∙ ap is_final is_chunk.flags in
      let final = is_final is_chunk.header.frame_flags in
      lengths_ok is_chunk.header.tag_len is_chunk.header.plaintext_len
        is_chunk.header.ciphertext_len shard.global_header.chunk_plain_size final _
        reader.saw_final_chunk is_chunk.tag (omega (arith, is_chunk.plaintext, is_chunk.fits))
        is_chunk.cipher should (λ e. one_final (ap is_final is_chunk.flags ∙ e))
        (λ e. sym is_chunk.plaintext ∙ is_chunk.full (ap is_final is_chunk.flags ∙ e))
    where
      lengths_ok :
          (tag plaintext cipher size : ℕ) (final should saw : Bool)
          → tag ≡ 16
          → plaintext ≤ size
          → cipher ≡ plaintext
          → should ≡ final
          → (final ≡ true → saw ≡ false)
          → (final ≡ false → plaintext ≡ size)
          → (do
            reject_if (not (tag == 16)) "invalid chunk frame tag length"
            reject_if (ltb size plaintext) "invalid chunk frame plaintext_len"
            reject_if (not (cipher == plaintext)) "invalid ciphertext_length"
            reject_if (if final then not should else should) "invalid final chunk marker"
            (if final
                then reject_if saw "duplicate final chunk marker"
                else reject_if
                    (not (plaintext == size))
                    "non-final chunk has partial plaintext length"))
            ≡ ok tt
      lengths_ok tag plaintext cipher size true should saw t p c s f n = ground arith
      lengths_ok tag plaintext cipher size false should saw t p c s f n = ground arith

  -- The reader behind the record.
  abbrev pub reader_after : ShardReader
  reader_after = record reader {
    current_record_in_shard = reader.current_record_in_shard + 1;
    current_stream =
        some (record stream { position = stream.position + 40 + (chunk.plaintext_size + 16) });
    seen_chunk_indices = index ∷ reader.seen_chunk_indices;
    saw_final_chunk = if is_final chunk.frame_flags then true else reader.saw_final_chunk;
  }

  accepts_body :
      (behind : List ℕ)
      → stream.position + length (frame_bytes chunk) + length behind
        ≡ (payload_offset + shard_payload_len shard) % 2 ^ 64
      → check_body shard (stream.position + 40) (chunk.plaintext_size + 16) ≡ ok tt
  unfolding check_body frame_bytes
  accepts_body behind e =
      let size = length-append chunk.frame_header_bytes chunk.ciphertext in
      in_payload (stream.position + 40) (chunk.plaintext_size + 16)
        ((payload_offset + shard_payload_len shard) % 2 ^ 64)
        (omega (arith, e, size, is_chunk.header_size, is_chunk.body))
    where
      in_payload :
          (offset body_len payload_end : ℕ)
          → offset + body_len ≤ payload_end
          → (if ltb payload_end offset
              then err (invalid_argument "chunk frame exceeds declared shard payload")
              else reject_if
                  (ltb (payload_end - offset) body_len)
                  "chunk frame exceeds declared shard payload")
            ≡ ok tt
      in_payload offset body_len payload_end h = ground arith

  pub read_record_ok :
      (behind rest : List ℕ)
      → ahead stream ≡ frame_bytes chunk ++ rest
      → stream.position + length (frame_bytes chunk) + length behind
        ≡ (payload_offset + shard_payload_len shard) % 2 ^ 64
      → read_record reader shard stream ≡ ok (some chunk, reader_after)
  unfolding read_record frame_bytes chunk_frame_v1_encoded_size
  read_record_ok behind rest e p =
      let header_read : read_exact stream 40 "truncated frame header"
          ≡ ok (chunk.frame_header_bytes, record stream { position = stream.position + 40 }) =
        subst
          (λ n.
            read_exact stream n "truncated frame header"
            ≡ ok (chunk.frame_header_bytes, record stream { position = stream.position + n }))
          is_chunk.header_size
          (read_exact_ok stream "truncated frame header" chunk.frame_header_bytes
            (chunk.ciphertext ++ rest) (omega (arith, is_chunk.header_size))
            (e ∙ append_assoc chunk.frame_header_bytes chunk.ciphertext rest)) in
      let stream₁ : Stream = record stream { position = stream.position + 40 } in
      let ahead₁ : ahead stream₁ ≡ chunk.ciphertext ++ rest =
        sym (drop-drop stream.position 40 stream.bytes)
        ∙ ap (drop 40) (e ∙ append_assoc chunk.frame_header_bytes chunk.ciphertext rest)
        ∙ subst
            (λ n.
              drop n (chunk.frame_header_bytes ++ (chunk.ciphertext ++ rest))
              ≡ chunk.ciphertext ++ rest)
            is_chunk.header_size
            (drop-append_length chunk.frame_header_bytes (chunk.ciphertext ++ rest)) in
      let body_read : read_exact stream₁ (chunk.plaintext_size + 16) "truncated ciphertext"
          ≡ ok (
            chunk.ciphertext,
            record stream₁ { position = stream.position + 40 + (chunk.plaintext_size + 16) },
          ) =
        subst
          (λ n.
            read_exact stream₁ n "truncated ciphertext"
            ≡ ok (chunk.ciphertext, record stream₁ { position = stream.position + 40 + n }))
          is_chunk.body
          (read_exact_ok stream₁ "truncated ciphertext" chunk.ciphertext rest
            (omega (arith, is_chunk.body, is_chunk.fits, plain)) ahead₁) in
      let sized : chunk_frame_v1_encoded_size is_chunk.header
          ≡ ok (56 + is_chunk.header.ciphertext_len) =
        rw
          (
            parsed_valid chunk.frame_header_bytes is_chunk.header is_chunk.parsed,
            chunk_frame_v1_encoded_size,
          )
          (size_value is_chunk.header.ciphertext_len is_chunk.header.tag_len is_chunk.tag
            (omega (arith, is_chunk.cipher, is_chunk.plaintext, is_chunk.fits, plain))) in
      let body_len : 56 + is_chunk.header.ciphertext_len - chunk_frame_header_v1_size
          ≡ chunk.plaintext_size + 16 =
        omega (arith, is_chunk.cipher, is_chunk.plaintext) in
      rw
        (
          header_read,
          is_chunk.parsed,
          accepts_place,
          accepts_lengths,
          sized,
          body_len,
          accepts_body behind p,
          body_read,
          read_record,
        )
        (returned is_chunk.header chunk.frame_flags chunk.chunk_index chunk.shard_index
          chunk.plaintext_size index is_chunk.numbered is_chunk.header_numbered
          (is_chunk.placed ∙ sym is_chunk.header_placed) is_chunk.plaintext is_chunk.flags)
    where
      returned :
          (header : ChunkFrameHeaderV1) (flags number place plain index : ℕ)
          → number ≡ index
          → header.global_chunk_index ≡ index
          → place ≡ header.shard_index
          → plain ≡ header.plaintext_len
          → flags ≡ header.frame_flags
          → ◌≡◌ {A = Result (Option ChunkRecord × ShardReader)}
              (ok (
                some (record {
                  chunk_index = header.global_chunk_index;
                  shard_index = header.shard_index;
                  plaintext_size = header.plaintext_len;
                  frame_flags = header.frame_flags;
                  frame_header_bytes = chunk.frame_header_bytes;
                  ciphertext = chunk.ciphertext;
                }),
                record reader {
                  current_record_in_shard = reader.current_record_in_shard + 1;
                  current_stream = some (record stream {
                    position = stream.position + 40 + (chunk.plaintext_size + 16);
                  });
                  seen_chunk_indices = header.global_chunk_index ∷ reader.seen_chunk_indices;
                  saw_final_chunk =
                      if is_final header.frame_flags then true else reader.saw_final_chunk;
                },
              ))
              (ok (
                some (record {
                  chunk_index = number;
                  shard_index = place;
                  plaintext_size = plain;
                  frame_flags = flags;
                  frame_header_bytes = chunk.frame_header_bytes;
                  ciphertext = chunk.ciphertext;
                }),
                record reader {
                  current_record_in_shard = reader.current_record_in_shard + 1;
                  current_stream = some (record stream {
                    position = stream.position + 40 + (chunk.plaintext_size + 16);
                  });
                  seen_chunk_indices = index ∷ reader.seen_chunk_indices;
                  saw_final_chunk = if is_final flags then true else reader.saw_final_chunk;
                },
              ))
      returned header flags number place plain index a b c d f = rw (a, b, c, d, f) refl
