-- ===== src/Frame/Global/Canonical.antt =====
-- From an accepted header back to the bytes: the encoding is canonical.
use bseal_cpp.Base.{
  ℕ, ◌<◌, ◌^◌, ◌≡◌, refl, sym, ap, ◌∙◌, subst, List, [], length, length-take, length_zero, take, ok,
  arith, not-false,
}
use bseal_cpp.Endian.{AreBytes}
use bseal_cpp.Endian.Inverse.{
  Holds, Holds-bind, Holds_elim, Holds-map, bind_reject, bind_read_bytes, bind_read_u16,
  bind_read_u32, bind_read_u64, take-AreBytes,
}
use bseal_cpp.Frame.{
  GlobalPublicHeaderV1, GlobalFits, global_header_v1_magic, default_global_header,
}
use bseal_cpp.Frame.Bytes.{equal_bytes→eq, parse_block_inverse}
use bseal_cpp.Frame.Global.{
  read_identity, read_sizes, read_limits, truncated_global, read_global, parse_global_public_header,
  serialize_global_public_header,
}
use bseal_cpp.Frame.Global.Rules.{GlobalRules, check_global_iff, check_global_header}
use bseal_cpp.Frame.Global.Layout.{
  identity_bytes, sizes_bytes, limits_bytes, global_bytes, serialize_global-eq, length-global_bytes,
}

abbrev IdentityFits : GlobalPublicHeaderV1 → Type 0
IdentityFits h =
    (length h.magic ≡ 8)
    × (h.format_major < 2 ^ 16)
    × (h.format_minor < 2 ^ 16)
    × (h.global_header_len < 2 ^ 32)
    × (h.shard_header_len < 2 ^ 32)
    × (h.frame_header_len < 2 ^ 16)
    × (h.global_flags < 2 ^ 16)
    × (length h.archive_id ≡ 32)
    × (h.aead_alg_id < 2 ^ 16)
    × (h.kdf_alg_id < 2 ^ 16)
    × (h.hash_alg_id < 2 ^ 16)
    × (h.mac_alg_id < 2 ^ 16)
    × (h.magic ≡ global_header_v1_magic)

abbrev IdentityRead : GlobalPublicHeaderV1 → List ℕ → GlobalPublicHeaderV1 → List ℕ → Type 0
IdentityRead d r h rest = IdentityFits h × (r ≡ identity_bytes h rest) × AreBytes rest

read_identity_inverse :
    (d : GlobalPublicHeaderV1) (r : List ℕ)
    → AreBytes r
    → Holds (IdentityRead d r) (read_identity d r)
unfolding read_identity
read_identity_inverse d r bytes =
    bind_read_bytes (IdentityRead d r) truncated_global 8 _ _ bytes λ v1 r1 e1 f1 x1 b1.
      bind_reject (IdentityRead d r) _ _ _ _ λ m.
        bind_read_u16 (IdentityRead d r) truncated_global _ _ b1 λ v2 r2 e2 f2 b2.
          bind_read_u16 (IdentityRead d r) truncated_global _ _ b2 λ v3 r3 e3 f3 b3.
            bind_read_u32 (IdentityRead d r) truncated_global _ _ b3 λ v4 r4 e4 f4 b4.
              bind_read_u32 (IdentityRead d r) truncated_global _ _ b4 λ v5 r5 e5 f5 b5.
                bind_read_u16 (IdentityRead d r) truncated_global _ _ b5 λ v6 r6 e6 f6 b6.
                  bind_read_u16 (IdentityRead d r) truncated_global _ _ b6 λ v7 r7 e7 f7 b7.
                    bind_read_bytes (IdentityRead d r) truncated_global 32 _ _ b7
                      λ v8 r8 e8 f8 x8 b8.
                        bind_read_u16 (IdentityRead d r) truncated_global _ _ b8 λ v9 r9 e9 f9 b9.
                          bind_read_u16 (IdentityRead d r) truncated_global _ _ b9
                            λ v10 r10 e10 f10 b10.
                              bind_read_u16 (IdentityRead d r) truncated_global _ _ b10
                                λ v11 r11 e11 f11 b11.
                                  bind_read_u16 (IdentityRead d r) truncated_global _ _ b11
                                    λ v12 r12 e12 f12 b12. (
                                      (
                                        f1,
                                        f2,
                                        f3,
                                        f4,
                                        f5,
                                        f6,
                                        f7,
                                        f8,
                                        f9,
                                        f10,
                                        f11,
                                        f12,
                                        equal_bytes→eq _ _ (not-false _ m),
                                      ),
                                      cc,
                                      b12,
                                    )

abbrev SizesFits : GlobalPublicHeaderV1 → Type 0
SizesFits h =
    (length h.kdf_salt ≡ 32)
    × (h.argon2_version < 2 ^ 32)
    × (h.argon2_memory_kib < 2 ^ 32)
    × (h.argon2_iterations < 2 ^ 32)
    × (h.argon2_parallelism < 2 ^ 32)
    × (h.chunk_plain_size < 2 ^ 32)
    × (h.shard_count < 2 ^ 32)
    × (h.global_chunk_count < 2 ^ 64)
    × (h.padded_plaintext_size < 2 ^ 64)
    × (h.final_plaintext_chunk_len < 2 ^ 32)
    × (h.padding_policy_id < 2 ^ 16)
    × (h.reserved0 < 2 ^ 16)

abbrev SizesRead : GlobalPublicHeaderV1 → List ℕ → GlobalPublicHeaderV1 → List ℕ → Type 0
SizesRead d r h rest =
    SizesFits h
    × (r ≡ sizes_bytes h rest)
    × AreBytes rest
    × (h ≡ record d {
      kdf_salt = h.kdf_salt;
      argon2_version = h.argon2_version;
      argon2_memory_kib = h.argon2_memory_kib;
      argon2_iterations = h.argon2_iterations;
      argon2_parallelism = h.argon2_parallelism;
      chunk_plain_size = h.chunk_plain_size;
      shard_count = h.shard_count;
      global_chunk_count = h.global_chunk_count;
      padded_plaintext_size = h.padded_plaintext_size;
      final_plaintext_chunk_len = h.final_plaintext_chunk_len;
      padding_policy_id = h.padding_policy_id;
      reserved0 = h.reserved0;
    })

read_sizes_inverse :
    (d : GlobalPublicHeaderV1) (r : List ℕ) → AreBytes r → Holds (SizesRead d r) (read_sizes d r)
unfolding read_sizes
read_sizes_inverse d r bytes =
    bind_read_bytes (SizesRead d r) truncated_global 32 _ _ bytes λ v1 r1 e1 f1 x1 b1.
      bind_read_u32 (SizesRead d r) truncated_global _ _ b1 λ v2 r2 e2 f2 b2.
        bind_read_u32 (SizesRead d r) truncated_global _ _ b2 λ v3 r3 e3 f3 b3.
          bind_read_u32 (SizesRead d r) truncated_global _ _ b3 λ v4 r4 e4 f4 b4.
            bind_read_u32 (SizesRead d r) truncated_global _ _ b4 λ v5 r5 e5 f5 b5.
              bind_read_u32 (SizesRead d r) truncated_global _ _ b5 λ v6 r6 e6 f6 b6.
                bind_read_u32 (SizesRead d r) truncated_global _ _ b6 λ v7 r7 e7 f7 b7.
                  bind_read_u64 (SizesRead d r) truncated_global _ _ b7 λ v8 r8 e8 f8 b8.
                    bind_read_u64 (SizesRead d r) truncated_global _ _ b8 λ v9 r9 e9 f9 b9.
                      bind_read_u32 (SizesRead d r) truncated_global _ _ b9 λ v10 r10 e10 f10 b10.
                        bind_read_u16 (SizesRead d r) truncated_global _ _ b10
                          λ v11 r11 e11 f11 b11.
                            bind_read_u16 (SizesRead d r) truncated_global _ _ b11
                              λ v12 r12 e12 f12 b12.
                                ((f1, f2, f3, f4, f5, f6, f7, f8, f9, f10, f11, f12), cc, b12, refl)

abbrev LimitsFits : GlobalPublicHeaderV1 → Type 0
LimitsFits h =
    (h.padding_policy_value < 2 ^ 64)
    × (h.max_shard_payload_len < 2 ^ 64)
    × (h.required_feature_flags < 2 ^ 64)
    × (length h.reserved1 ≡ 24)

abbrev LimitsRead : GlobalPublicHeaderV1 → List ℕ → GlobalPublicHeaderV1 → List ℕ → Type 0
LimitsRead d r h rest =
    LimitsFits h
    × (r ≡ limits_bytes h rest)
    × AreBytes rest
    × (h ≡ record d {
      padding_policy_value = h.padding_policy_value;
      max_shard_payload_len = h.max_shard_payload_len;
      required_feature_flags = h.required_feature_flags;
      reserved1 = h.reserved1;
    })

read_limits_inverse :
    (d : GlobalPublicHeaderV1) (r : List ℕ) → AreBytes r → Holds (LimitsRead d r) (read_limits d r)
unfolding read_limits
read_limits_inverse d r bytes =
    bind_read_u64 (LimitsRead d r) truncated_global _ _ bytes λ v1 r1 e1 f1 b1.
      bind_read_u64 (LimitsRead d r) truncated_global _ _ b1 λ v2 r2 e2 f2 b2.
        bind_read_u64 (LimitsRead d r) truncated_global _ _ b2 λ v3 r3 e3 f3 b3.
          bind_read_bytes (LimitsRead d r) truncated_global 24 _ _ b3
            λ v4 r4 e4 f4 x4 b4. ((f1, f2, f3, f4), cc, b4, refl)

GlobalFits-of_parts :
    (h : GlobalPublicHeaderV1) → IdentityFits h → SizesFits h → LimitsFits h → GlobalFits h
GlobalFits-of_parts h i s l = record {
  magic_size = i.0;
  format_major_fits = i.1;
  format_minor_fits = i.2;
  global_header_len_fits = i.3;
  shard_header_len_fits = i.4;
  frame_header_len_fits = i.5;
  global_flags_fits = i.6;
  archive_id_size = i.7;
  aead_alg_id_fits = i.8;
  kdf_alg_id_fits = i.9;
  hash_alg_id_fits = i.10;
  mac_alg_id_fits = i.11;
  kdf_salt_size = s.0;
  argon2_version_fits = s.1;
  argon2_memory_kib_fits = s.2;
  argon2_iterations_fits = s.3;
  argon2_parallelism_fits = s.4;
  chunk_plain_size_fits = s.5;
  shard_count_fits = s.6;
  global_chunk_count_fits = s.7;
  padded_plaintext_size_fits = s.8;
  final_plaintext_chunk_len_fits = s.9;
  padding_policy_id_fits = s.10;
  reserved0_fits = s.11;
  padding_policy_value_fits = l.0;
  max_shard_payload_len_fits = l.1;
  required_feature_flags_fits = l.2;
  reserved1_size = l.3;
}

-- The whole header: its fields are in range, and its layout is what was read.
abbrev GlobalRead : List ℕ → GlobalPublicHeaderV1 → List ℕ → Type 0
GlobalRead r h rest = GlobalFits h × (h.magic ≡ global_header_v1_magic) × (r ≡ global_bytes h rest)

-- The later stages leave what the earlier ones read.
GlobalRead-of_stages :
    (d h1 h2 h3 : GlobalPublicHeaderV1) (r r1 r2 r3 : List ℕ)
    → IdentityRead d r h1 r1
    → SizesRead h1 r1 h2 r2
    → LimitsRead h2 r2 h3 r3
    → GlobalRead r h3 r3
GlobalRead-of_stages d h1 h2 h3 r r1 r2 r3 i s l =
    let (i2, e2) = subst (λ x. IdentityFits x × (r ≡ identity_bytes x r1)) (sym s.3) (i.0, i.1) in
    let (i3, e3) = subst (λ x. IdentityFits x × (r ≡ identity_bytes x r1)) (sym l.3) (i2, e2) in
    let (s3, f3) = subst (λ x. SizesFits x × (r1 ≡ sizes_bytes x r2)) (sym l.3) (s.0, s.1) in
    (
      GlobalFits-of_parts h3 i3 s3 l.0,
      i3.12,
      e3 ∙ ap (identity_bytes h3) (f3 ∙ ap (sizes_bytes h3) l.1),
    )

read_global_inverse : (r : List ℕ) → AreBytes r → Holds (GlobalRead r) (read_global r)
unfolding read_global
read_global_inverse r bytes =
    Holds-bind _ (GlobalRead r) _ _ r (read_identity_inverse default_global_header r bytes)
      λ h1 r1 i. Holds-bind _ (GlobalRead r) _ _ r1 (read_sizes_inverse h1 r1 i.2) λ h2 r2 s.
        Holds-map _ (GlobalRead r) (read_limits h2 r2) (read_limits_inverse h2 r2 s.2)
          λ h3 r3 l. GlobalRead-of_stages default_global_header h1 h2 h3 r r1 r2 r3 i s l

-- What parse_global_public_header accepts obeys the rules that check_global_header tests (not all of those in
-- FORMAT.md: the KDF parameters, room for a full frame in a shard, and a chunk sum that is exact and not
-- modulo 2 ^ 64, are not among them), its fields are in the range of their C++ types, and serialising it
-- gives back exactly the 192 bytes that were parsed: two different byte strings never parse to one header.
pub parse_global_sound :
    (bytes : List ℕ) (h : GlobalPublicHeaderV1)
    → AreBytes bytes
    → parse_global_public_header bytes ≡ ok h
    → GlobalFits h
      × GlobalRules h
      × (h.magic ≡ global_header_v1_magic)
      × (serialize_global_public_header h ≡ ok (take 192 bytes))
unfolding parse_global_public_header
parse_global_sound bytes h are e =
    let (long, rest, r, c) =
      parse_block_inverse 192 truncated_global read_global check_global_header bytes h e in
    let (fits, is_magic, whole) =
      Holds_elim (GlobalRead (take 192 bytes)) (read_global (take 192 bytes))
        (read_global_inverse (take 192 bytes) (take-AreBytes 192 bytes are)) r in
    let nothing : rest ≡ [] =
      length_zero rest
        (omega (arith, ap length whole, length-take 192 bytes, length-global_bytes h rest fits)) in
    (
      fits,
      (check_global_iff h fits).0 c,
      is_magic,
      serialize_global-eq h fits ∙ ap ok (ap (global_bytes h) (sym nothing) ∙ sym whole),
    )
