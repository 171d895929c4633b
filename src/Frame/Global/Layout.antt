-- ===== src/Frame/Global/Layout.antt =====
-- The byte layout of FORMAT.md section 5, field after field, and that the serialiser writes it.
use bseal_cpp.Base.{
  ℕ, ◌+◌, ◌≡◌, sym, ◌∙◌, List, [], ◌++◌, length, length-append, append-nil, append_assoc, ok, arith,
}
use bseal_cpp.Endian.Laws.{
  le16, le32, le64, append_u16_le_lem, append_u32_le_lem, append_u64_le_lem, append_bytes_lem,
}
use bseal_cpp.Frame.{GlobalPublicHeaderV1, GlobalFits}
use bseal_cpp.Frame.Global.{
  append_identity, append_sizes, append_limits, serialize_global_public_header,
}

abbrev pub identity_bytes : GlobalPublicHeaderV1 → List ℕ → List ℕ
identity_bytes h rest =
    h.magic
    ++ (le16 h.format_major
        ++ (le16 h.format_minor
            ++ (le32 h.global_header_len
                ++ (le32 h.shard_header_len
                    ++ (le16 h.frame_header_len
                        ++ (le16 h.global_flags
                            ++ (h.archive_id
                                ++ (le16 h.aead_alg_id
                                    ++ (le16 h.kdf_alg_id
                                        ++ (le16 h.hash_alg_id
                                            ++ (le16 h.mac_alg_id ++ rest)))))))))))

abbrev pub sizes_bytes : GlobalPublicHeaderV1 → List ℕ → List ℕ
sizes_bytes h rest =
    h.kdf_salt
    ++ (le32 h.argon2_version
        ++ (le32 h.argon2_memory_kib
            ++ (le32 h.argon2_iterations
                ++ (le32 h.argon2_parallelism
                    ++ (le32 h.chunk_plain_size
                        ++ (le32 h.shard_count
                            ++ (le64 h.global_chunk_count
                                ++ (le64 h.padded_plaintext_size
                                    ++ (le32 h.final_plaintext_chunk_len
                                        ++ (le16 h.padding_policy_id
                                            ++ (le16 h.reserved0 ++ rest)))))))))))

abbrev pub limits_bytes : GlobalPublicHeaderV1 → List ℕ → List ℕ
limits_bytes h rest =
    le64 h.padding_policy_value
    ++ (le64 h.max_shard_payload_len ++ (le64 h.required_feature_flags ++ (h.reserved1 ++ rest)))

abbrev pub global_bytes : GlobalPublicHeaderV1 → List ℕ → List ℕ
global_bytes h rest = identity_bytes h (sizes_bytes h (limits_bytes h rest))

ruleset appends =
    (append_u16_le_lem, append_u32_le_lem, append_u64_le_lem, append_bytes_lem, append_assoc)

append_identity_lem :
    (out rest : List ℕ) (h : GlobalPublicHeaderV1)
    → append_identity out h ++ rest ≡ out ++ identity_bytes h rest
unfolding append_identity
append_identity_lem out rest h = simp appends

append_sizes_lem :
    (out rest : List ℕ) (h : GlobalPublicHeaderV1)
    → append_sizes out h ++ rest ≡ out ++ sizes_bytes h rest
unfolding append_sizes
append_sizes_lem out rest h = simp appends

append_limits_lem :
    (out rest : List ℕ) (h : GlobalPublicHeaderV1)
    → append_limits out h ++ rest ≡ out ++ limits_bytes h rest
unfolding append_limits
append_limits_lem out rest h = simp appends

pub length-global_bytes :
    (h : GlobalPublicHeaderV1) (rest : List ℕ)
    → GlobalFits h
    → length (global_bytes h rest) ≡ 192 + length rest
length-global_bytes h rest fits = simp length-append (omega arith)

-- The serialiser always succeeds on a value of the struct, and writes the layout.
pub serialize_global-eq :
    (h : GlobalPublicHeaderV1)
    → GlobalFits h
    → serialize_global_public_header h ≡ ok (global_bytes h [])
unfolding serialize_global_public_header
serialize_global-eq h fits =
    let out : List ℕ = append_limits (append_sizes (append_identity [] h) h) h in
    let written : out ≡ global_bytes h [] =
      sym (append-nil out)
      ∙ append_limits_lem (append_sizes (append_identity [] h) h) [] h
      ∙ append_sizes_lem (append_identity [] h) (limits_bytes h []) h
      ∙ append_identity_lem [] (sizes_bytes h (limits_bytes h [])) h in
    rw written (ground (arith, length-global_bytes h [] fits))
