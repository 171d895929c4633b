-- ===== src/Frame/Shard/Laws.antt =====
-- The shard header: layout, round trip and canonical encoding.
use bseal_cpp.Base.{
  ℕ, ◌+◌, ◌≡◌, refl, sym, ap, ◌∙◌, List, [], ◌++◌, length, length-append, length-take, length_zero,
  take, append-nil, append_assoc, ok, arith, not-false,
}
use bseal_cpp.Endian.{AreBytes}
use bseal_cpp.Endian.Laws.{
  le32, le64, append_u16_le_lem, append_u32_le_lem, append_u64_le_lem, append_bytes_lem, take-block,
  bind_step, then_step, read_bytes-append, read_u32_le-append, read_u64_le-append,
}
use bseal_cpp.Endian.Inverse.{
  Holds, Holds_elim, bind_reject, bind_read_bytes, bind_read_u32, bind_read_u64, take-AreBytes,
}
use bseal_cpp.Frame.Bytes.{
  equal_bytes→eq, equal_bytes_refl, parse_block_accepts, parse_block_inverse,
}
use bseal_cpp.Frame.{ShardPublicHeaderV1, ShardFits, shard_header_v1_magic, default_shard_header}
use bseal_cpp.Frame.Shard.{
  append_shard, serialize_shard_public_header, truncated_shard, read_shard,
  parse_shard_public_header,
}
use bseal_cpp.Frame.Shard.Rules.{check_shard_header, ShardRules, check_shard_iff}

abbrev pub shard_bytes : ShardPublicHeaderV1 → List ℕ → List ℕ
shard_bytes h rest =
    h.shard_magic
    ++ (le32 h.shard_header_len
        ++ (le32 h.shard_index
            ++ (le64 h.first_global_chunk_index
                ++ (le64 h.shard_chunk_count
                    ++ (le64 h.shard_payload_len
                        ++ (h.header_mac ++ (le64 h.reserved0 ++ rest)))))))

ruleset appends =
    (append_u16_le_lem, append_u32_le_lem, append_u64_le_lem, append_bytes_lem, append_assoc)

append_shard_lem :
    (out rest : List ℕ) (h : ShardPublicHeaderV1)
    → append_shard out h ++ rest ≡ out ++ shard_bytes h rest
unfolding append_shard
append_shard_lem out rest h = simp appends

pub length-shard_bytes :
    (h : ShardPublicHeaderV1) (rest : List ℕ)
    → ShardFits h
    → length (shard_bytes h rest) ≡ 80 + length rest
length-shard_bytes h rest fits = simp length-append (omega arith)

pub serialize_shard-eq :
    (h : ShardPublicHeaderV1)
    → ShardFits h
    → serialize_shard_public_header h ≡ ok (shard_bytes h [])
unfolding serialize_shard_public_header
serialize_shard-eq h fits =
    rw (sym (append-nil (append_shard [] h)) ∙ append_shard_lem [] [] h)
      (ground (arith, length-shard_bytes h [] fits))

pub read_shard_lem :
    (d h : ShardPublicHeaderV1) (rest : List ℕ)
    → ShardFits h
    → h.shard_magic ≡ shard_header_v1_magic
    → read_shard d (shard_bytes h rest) ≡ ok (h, rest)
unfolding read_shard
read_shard_lem d h rest fits is_magic =
    bind_step _ _ (read_bytes-append truncated_shard h.shard_magic _ 8 fits.shard_magic_size)
    ∙ then_step _ _ (rw (is_magic, equal_bytes_refl) refl)
    ∙ bind_step _ _
        (read_u32_le-append truncated_shard h.shard_header_len _ fits.shard_header_len_fits)
    ∙ bind_step _ _ (read_u32_le-append truncated_shard h.shard_index _ fits.shard_index_fits)
    ∙ bind_step _ _ (
        read_u64_le-append truncated_shard h.first_global_chunk_index _
          fits.first_global_chunk_index_fits)
    ∙ bind_step _ _
        (read_u64_le-append truncated_shard h.shard_chunk_count _ fits.shard_chunk_count_fits)
    ∙ bind_step _ _
        (read_u64_le-append truncated_shard h.shard_payload_len _ fits.shard_payload_len_fits)
    ∙ bind_step _ _ (read_bytes-append truncated_shard h.header_mac _ 32 fits.header_mac_size)
    ∙ bind_step _ _ (read_u64_le-append truncated_shard h.reserved0 _ fits.reserved0_fits)

-- A shard header that obeys the rejection rules is serialised without an error, and
-- parse_shard_public_header reads it back from the bytes, whatever follows them in the file.
pub parse-serialize_shard :
    (h : ShardPublicHeaderV1) (rest : List ℕ)
    → ShardFits h
    → h.shard_magic ≡ shard_header_v1_magic
    → ShardRules h
    → (out : List ℕ) × (serialize_shard_public_header h ≡ ok out)
      × (parse_shard_public_header (out ++ rest) ≡ ok h)
unfolding parse_shard_public_header
parse-serialize_shard h rest fits is_magic rules =
    let out : List ℕ = shard_bytes h [] in
    let size : length out ≡ 80 = omega (arith, length-shard_bytes h [] fits) in
    (
      out,
      serialize_shard-eq h fits,
      parse_block_accepts 80 truncated_shard (read_shard default_shard_header) check_shard_header
          (out ++ rest) [] h (omega (arith, size, length-append out rest))
          (rw (take-block 80 out rest size)
            (read_shard_lem default_shard_header h [] fits is_magic))
          ((check_shard_iff h).1 rules),
    )

abbrev ShardRead : List ℕ → ShardPublicHeaderV1 → List ℕ → Type 0
ShardRead r h rest =
    ShardFits h × (h.shard_magic ≡ shard_header_v1_magic) × (r ≡ shard_bytes h rest)

read_shard_inverse :
    (d : ShardPublicHeaderV1) (r : List ℕ) → AreBytes r → Holds (ShardRead r) (read_shard d r)
unfolding read_shard
read_shard_inverse d r bytes =
    bind_read_bytes (ShardRead r) truncated_shard 8 _ _ bytes λ v1 r1 e1 f1 x1 b1.
      bind_reject (ShardRead r) _ _ _ _ λ m.
        bind_read_u32 (ShardRead r) truncated_shard _ _ b1 λ v2 r2 e2 f2 b2.
          bind_read_u32 (ShardRead r) truncated_shard _ _ b2 λ v3 r3 e3 f3 b3.
            bind_read_u64 (ShardRead r) truncated_shard _ _ b3 λ v4 r4 e4 f4 b4.
              bind_read_u64 (ShardRead r) truncated_shard _ _ b4 λ v5 r5 e5 f5 b5.
                bind_read_u64 (ShardRead r) truncated_shard _ _ b5 λ v6 r6 e6 f6 b6.
                  bind_read_bytes (ShardRead r) truncated_shard 32 _ _ b6 λ v7 r7 e7 f7 x7 b7.
                    bind_read_u64 (ShardRead r) truncated_shard _ _ b7 λ v8 r8 e8 f8 b8. (
                      record {
                        shard_magic_size = f1;
                        shard_header_len_fits = f2;
                        shard_index_fits = f3;
                        first_global_chunk_index_fits = f4;
                        shard_chunk_count_fits = f5;
                        shard_payload_len_fits = f6;
                        header_mac_size = f7;
                        reserved0_fits = f8;
                      },
                      equal_bytes→eq _ _ (not-false _ m),
                      cc,
                    )

-- What parse_shard_public_header accepts obeys the rejection rules, and serialising it gives back
-- exactly the 80 bytes that were parsed.
pub parse_shard_sound :
    (bytes : List ℕ) (h : ShardPublicHeaderV1)
    → AreBytes bytes
    → parse_shard_public_header bytes ≡ ok h
    → ShardFits h
      × ShardRules h
      × (h.shard_magic ≡ shard_header_v1_magic)
      × (serialize_shard_public_header h ≡ ok (take 80 bytes))
unfolding parse_shard_public_header
parse_shard_sound bytes h are e =
    let (long, rest, r, c) =
      parse_block_inverse 80 truncated_shard (read_shard default_shard_header) check_shard_header
        bytes h e in
    let (fits, is_magic, whole) =
      Holds_elim (ShardRead (take 80 bytes)) (read_shard default_shard_header (take 80 bytes))
        (read_shard_inverse default_shard_header (take 80 bytes) (take-AreBytes 80 bytes are)) r in
    let nothing : rest ≡ [] =
      length_zero rest
        (omega (arith, ap length whole, length-take 80 bytes, length-shard_bytes h rest fits)) in
    (
      fits,
      (check_shard_iff h).0 c,
      is_magic,
      serialize_shard-eq h fits ∙ ap ok (ap (shard_bytes h) (sym nothing) ∙ sym whole),
    )
