-- ===== src/Frame/Chunk/Laws.antt =====
-- The chunk frame header: layout, round trip and canonical encoding.
use bseal_cpp.Base.{
  ℕ, ◌+◌, ◌<◌, ◌≤◌, ◌≡◌, refl, sym, ap, ◌∙◌, List, [], ◌∷◌, ◌++◌, length, length-append,
  length-take, length_zero, take, append-nil, append_assoc, ok, arith, true, not-false, ==_iff,
}
use bseal_cpp.Endian.{AreBytes, all_zero}
use bseal_cpp.Endian.Laws.{
  le16, le32, le64, append_u16_le_lem, append_u32_le_lem, append_u64_le_lem, append_bytes_lem,
  take-block, bind_step, then_step, read_bytes-append, read_u16_le-append, read_u32_le-append,
  read_u64_le-append,
}
use bseal_cpp.Endian.Inverse.{
  Holds, Holds_elim, bind_reject, bind_read_bytes, bind_read_u16, bind_read_u32, bind_read_u64,
  take-AreBytes,
}
use bseal_cpp.Frame.Bytes.{
  equal_bytes→eq, equal_bytes_refl, parse_block_accepts, parse_block_inverse,
}
use bseal_cpp.Frame.{ChunkFrameHeaderV1, ChunkFits, chunk_frame_v1_magic}
use bseal_cpp.Frame.Chunk.{
  append_chunk, serialize_chunk_frame_header_v1, truncated_frame, read_chunk,
  parse_chunk_frame_header_v1,
}
use bseal_cpp.Frame.Chunk.Rules.{
  validate_chunk_iff, check_chunk_header, ChunkRules, check_chunk_iff,
}

abbrev pub chunk_bytes : ChunkFrameHeaderV1 → List ℕ → List ℕ
chunk_bytes h rest =
    chunk_frame_v1_magic
    ++ (le16 40
        ++ (le16 h.frame_flags
            ++ (le32 h.shard_index
                ++ (le64 h.global_chunk_index
                    ++ (le32 h.plaintext_len
                        ++ (le64 h.ciphertext_len
                            ++ (le16 h.tag_len ++ (le16 0 ++ (le32 0 ++ rest)))))))))

ruleset appends =
    (append_u16_le_lem, append_u32_le_lem, append_u64_le_lem, append_bytes_lem, append_assoc)

append_chunk_lem :
    (out rest : List ℕ) (h : ChunkFrameHeaderV1)
    → append_chunk out h ++ rest ≡ out ++ chunk_bytes h rest
unfolding append_chunk
append_chunk_lem out rest h = simp appends

pub length-chunk_bytes :
    (h : ChunkFrameHeaderV1) (rest : List ℕ) → length (chunk_bytes h rest) ≡ 40 + length rest
length-chunk_bytes h rest = simp length-append (omega arith)

-- The serialiser succeeds exactly on valid headers; this is what it writes.
pub serialize_chunk-eq :
    (h : ChunkFrameHeaderV1)
    → ChunkFits h
    → h.frame_flags ≤ 1
    → 0 < h.tag_len
    → serialize_chunk_frame_header_v1 h ≡ ok (chunk_bytes h [])
unfolding serialize_chunk_frame_header_v1
serialize_chunk-eq h fits f t =
    rw ((validate_chunk_iff h fits).1 (f, t), serialize_chunk_frame_header_v1)
      (ap ok (sym (append-nil (append_chunk [] h)) ∙ append_chunk_lem [] [] h))

pub read_chunk_lem :
    (h : ChunkFrameHeaderV1) (rest : List ℕ)
    → ChunkFits h
    → read_chunk (chunk_bytes h rest) ≡ ok (h, rest)
unfolding read_chunk all_zero
read_chunk_lem h rest fits =
    bind_step _ _ (read_bytes-append truncated_frame chunk_frame_v1_magic _ 4 refl)
    ∙ then_step _ _ (rw (equal_bytes_refl) refl)
    ∙ bind_step _ _ (read_u16_le-append truncated_frame 40 _ (omega arith))
    ∙ then_step _ _ refl
    ∙ bind_step _ _ (read_u16_le-append truncated_frame h.frame_flags _ fits.frame_flags_fits)
    ∙ bind_step _ _ (read_u32_le-append truncated_frame h.shard_index _ fits.shard_index_fits)
    ∙ bind_step _ _
        (read_u64_le-append truncated_frame h.global_chunk_index _ fits.global_chunk_index_fits)
    ∙ bind_step _ _ (read_u32_le-append truncated_frame h.plaintext_len _ fits.plaintext_len_fits)
    ∙ bind_step _ _ (read_u64_le-append truncated_frame h.ciphertext_len _ fits.ciphertext_len_fits)
    ∙ bind_step _ _ (read_u16_le-append truncated_frame h.tag_len _ fits.tag_len_fits)
    ∙ bind_step _ _ (read_u16_le-append truncated_frame 0 _ (omega arith))
    ∙ then_step _ _ refl
    ∙ bind_step _ _ (read_bytes-append truncated_frame (le32 0) _ 4 refl)
    ∙ then_step _ _ refl

-- A frame header that obeys the v1 rules is serialised without an error, and
-- parse_chunk_frame_header_v1 reads it back, whatever follows it in the shard.
pub parse-serialize_chunk :
    (h : ChunkFrameHeaderV1) (rest : List ℕ)
    → ChunkFits h
    → ChunkRules h
    → (out : List ℕ) × (serialize_chunk_frame_header_v1 h ≡ ok out)
      × (parse_chunk_frame_header_v1 (out ++ rest) ≡ ok h)
unfolding parse_chunk_frame_header_v1
parse-serialize_chunk h rest fits rules =
    let out : List ℕ = chunk_bytes h [] in
    let size : length out ≡ 40 = omega (arith, length-chunk_bytes h []) in
    (
      out,
      serialize_chunk-eq h fits rules.flags (omega (arith, rules.tag)),
      parse_block_accepts 40 truncated_frame read_chunk check_chunk_header (out ++ rest) [] h
          (omega (arith, size, length-append out rest))
          (rw (take-block 40 out rest size) (read_chunk_lem h [] fits))
          ((check_chunk_iff h fits).1 rules),
    )

abbrev ChunkRead : List ℕ → ChunkFrameHeaderV1 → List ℕ → Type 0
ChunkRead r h rest = ChunkFits h × (r ≡ chunk_bytes h rest)

all_zero_four : (xs : List ℕ) → length xs ≡ 4 → all_zero xs ≡ true → xs ≡ le32 0
unfolding all_zero
all_zero_four (a ∷ b ∷ c ∷ d ∷ []) e z = ground arith
all_zero_four [] e z = absurd (omega arith)
all_zero_four (a ∷ []) e z = absurd (omega arith)
all_zero_four (a ∷ b ∷ []) e z = absurd (omega arith)
all_zero_four (a ∷ b ∷ c ∷ []) e z = absurd (omega arith)
all_zero_four (a ∷ b ∷ c ∷ d ∷ x ∷ xs) e z = absurd (omega arith)

read_chunk_inverse : (r : List ℕ) → AreBytes r → Holds (ChunkRead r) (read_chunk r)
unfolding read_chunk
read_chunk_inverse r bytes =
    let Q = ChunkRead r in
    bind_read_bytes Q truncated_frame 4 _ _ bytes λ v0 r0 e0 f0 x0 b0. bind_reject Q _ _ _ _ λ m.
      bind_read_u16 Q truncated_frame _ _ b0 λ w0 s0 g0 h0 c0. bind_reject Q _ _ _ _ λ n.
        bind_read_u16 Q truncated_frame _ _ c0 λ v1 r1 e1 f1 b1.
          bind_read_u32 Q truncated_frame _ _ b1 λ v2 r2 e2 f2 b2.
            bind_read_u64 Q truncated_frame _ _ b2 λ v3 r3 e3 f3 b3.
              bind_read_u32 Q truncated_frame _ _ b3 λ v4 r4 e4 f4 b4.
                bind_read_u64 Q truncated_frame _ _ b4 λ v5 r5 e5 f5 b5.
                  bind_read_u16 Q truncated_frame _ _ b5 λ v6 r6 e6 f6 b6.
                    bind_read_u16 Q truncated_frame _ _ b6 λ v7 r7 e7 f7 b7.
                      bind_reject Q _ _ _ _ λ z7.
                        bind_read_bytes Q truncated_frame 4 _ _ b7 λ v8 r8 e8 f8 x8 b8.
                          bind_reject Q _ _ _ _ λ z8. (
                            record {
                              frame_flags_fits = f1;
                              shard_index_fits = f2;
                              global_chunk_index_fits = f3;
                              plaintext_len_fits = f4;
                              ciphertext_len_fits = f5;
                              tag_len_fits = f6;
                            },
                            cc (
                              equal_bytes→eq _ _ (not-false _ m),
                              (==_iff _ _).0 (not-false _ n),
                              (==_iff _ _).0 (not-false _ z7),
                              all_zero_four v8 f8 (not-false _ z8),
                            ),
                          )

-- What parse_chunk_frame_header_v1 accepts obeys the v1 rules, and serialising it gives back exactly
-- the 40 bytes that were parsed: those bytes are the associated data of the chunk.
pub parse_chunk_sound :
    (bytes : List ℕ) (h : ChunkFrameHeaderV1)
    → AreBytes bytes
    → parse_chunk_frame_header_v1 bytes ≡ ok h
    → ChunkFits h × ChunkRules h × (serialize_chunk_frame_header_v1 h ≡ ok (take 40 bytes))
unfolding parse_chunk_frame_header_v1
parse_chunk_sound bytes h are e =
    let (long, rest, r, c) =
      parse_block_inverse 40 truncated_frame read_chunk check_chunk_header bytes h e in
    let (fits, whole) =
      Holds_elim (ChunkRead (take 40 bytes)) (read_chunk (take 40 bytes))
        (read_chunk_inverse (take 40 bytes) (take-AreBytes 40 bytes are)) r in
    let rules = (check_chunk_iff h fits).0 c in
    let nothing : rest ≡ [] =
      length_zero rest
        (omega (arith, ap length whole, length-take 40 bytes, length-chunk_bytes h rest)) in
    (
      fits,
      rules,
      serialize_chunk-eq h fits rules.flags (omega (arith, rules.tag))
          ∙ ap ok (ap (chunk_bytes h) (sym nothing) ∙ sym whole),
    )
