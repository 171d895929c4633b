-- ===== src/Io/Writer/Sizes.antt =====
-- The global header that finish (io/ShardWriter.cpp) writes into the shards.
use bseal_cpp.Base.{
  ℕ, ◌+◌, ◌-◌, ◌*◌, ◌^◌, ◌%◌, ◌≡◌, refl, ap, Bool, lt→ltb, ==_iff, inl, inr, List, Option, String,
  ok, arith,
}
use bseal_cpp.Checked.{checked_mul_u64, checked_add_u64}
use bseal_cpp.Checked.Laws.{checked_mul_exact, checked_add_exact}
use bseal_cpp.Frame.{GlobalPublicHeaderV1, GlobalFits}
use bseal_cpp.App.Plan.{PlanParams, plain_len_at}
use bseal_cpp.Io.Writer.{ShardWriterOptions, ShardWriter}
use bseal_cpp.Io.Writer.Write.{final_sizes}
use bseal_cpp.Io.Writer.States.{Setting, final_len}
use bseal_cpp.Io.Writer.Files.{final_global, Bodies}

module _ (options : ShardWriterOptions) (p : PlanParams) (names : ℕ → List ℕ) (body : ℕ → List ℕ)
    (exists : List ℕ → Bool) (hmac_sha256 : List ℕ → List ℕ → Option (List ℕ))
    (setting : Setting options p names exists hmac_sha256) (bodies : Bodies p body) where
  pub last_is : final_len p p.global_chunk_count ≡ plain_len_at p (p.global_chunk_count - 1)
  last_is =
      rw
        (
          (==_iff p.global_chunk_count p.global_chunk_count).1 refl,
          lt→ltb 0 p.global_chunk_count bodies.some_chunk,
        )
        refl

  pub final_global-GlobalFits : (shards : ℕ) → GlobalFits (final_global options p shards)
  final_global-GlobalFits shards =
      let f = setting.global_fits in
      record {
        magic_size = f.magic_size;
        format_major_fits = f.format_major_fits;
        format_minor_fits = f.format_minor_fits;
        global_header_len_fits = f.global_header_len_fits;
        shard_header_len_fits = f.shard_header_len_fits;
        frame_header_len_fits = f.frame_header_len_fits;
        global_flags_fits = f.global_flags_fits;
        archive_id_size = f.archive_id_size;
        aead_alg_id_fits = f.aead_alg_id_fits;
        kdf_alg_id_fits = f.kdf_alg_id_fits;
        hash_alg_id_fits = f.hash_alg_id_fits;
        mac_alg_id_fits = f.mac_alg_id_fits;
        kdf_salt_size = f.kdf_salt_size;
        argon2_version_fits = f.argon2_version_fits;
        argon2_memory_kib_fits = f.argon2_memory_kib_fits;
        argon2_iterations_fits = f.argon2_iterations_fits;
        argon2_parallelism_fits = f.argon2_parallelism_fits;
        chunk_plain_size_fits = f.chunk_plain_size_fits;
        shard_count_fits = omega arith;
        global_chunk_count_fits = setting.matches.fits.count_fits;
        padded_plaintext_size_fits = bodies.total_fits;
        final_plaintext_chunk_len_fits = omega arith;
        padding_policy_id_fits = f.padding_policy_id_fits;
        reserved0_fits = f.reserved0_fits;
        padding_policy_value_fits = f.padding_policy_value_fits;
        max_shard_payload_len_fits = f.max_shard_payload_len_fits;
        required_feature_flags_fits = f.required_feature_flags_fits;
        reserved1_size = f.reserved1_size;
      }

  full_exact :
      (context : String)
      → checked_mul_u64 (p.global_chunk_count - 1) p.chunk_plain_size context
        ≡ ok ((p.global_chunk_count - 1) * p.chunk_plain_size)
  full_exact context =
      elim (checked_mul_exact (p.global_chunk_count - 1) p.chunk_plain_size context) [
        | inl y ↦ y.1
        | inr n ↦ absurd (omega (arith, n.0, bodies.total_fits))
      ]

  total_exact :
      (context : String)
      → checked_add_u64
          ((p.global_chunk_count - 1) * p.chunk_plain_size)
          (plain_len_at p (p.global_chunk_count - 1))
          context
        ≡ ok (
            (p.global_chunk_count - 1) * p.chunk_plain_size
            + plain_len_at p (p.global_chunk_count - 1))
  total_exact context =
      let full = (p.global_chunk_count - 1) * p.chunk_plain_size in
      elim (checked_add_exact full (plain_len_at p (p.global_chunk_count - 1)) context
        (omega (arith, bodies.total_fits))) [
          | inl y ↦ y.1
          | inr n ↦ absurd (omega (arith, n.0, bodies.total_fits))
        ]

  pub sizes_ok :
      (w : ShardWriter) (h : GlobalPublicHeaderV1)
      → w.next_expected_chunk_index ≡ p.global_chunk_count
      → w.final_chunk_plaintext_len ≡ plain_len_at p (p.global_chunk_count - 1)
      → h.chunk_plain_size ≡ p.chunk_plain_size
      → final_sizes w h
        ≡ ok (record h {
          final_plaintext_chunk_len = plain_len_at p (p.global_chunk_count - 1) % 2 ^ 32;
          padded_plaintext_size =
              (p.global_chunk_count - 1) * p.chunk_plain_size
              + plain_len_at p (p.global_chunk_count - 1);
        })
  unfolding final_sizes
  sizes_ok w h next last size =
      rw
        (
          next,
          last,
          lt→ltb 0 p.global_chunk_count bodies.some_chunk,
          lt→ltb 0 (plain_len_at p (p.global_chunk_count - 1)) bodies.last_chunk,
          ap
              (λ s.
                checked_mul_u64 (p.global_chunk_count - 1) s "ShardWriter: padded plaintext size")
              size,
          full_exact "ShardWriter: padded plaintext size",
          total_exact "ShardWriter: padded plaintext size",
          final_sizes,
        )
        refl
