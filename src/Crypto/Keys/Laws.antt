-- ===== src/Crypto/Keys/Laws.antt =====
-- Nonces do not repeat within an archive, and every key has its size and its own label.
use bseal_cpp.Base.{
  ℕ, ◌-◌, ◌<◌, ◌^◌, ◌≡◌, sym, ap, ◌∙◌, not, ltb, ◌==◌, length, List, [], ◌++◌, length-append,
  Option, ok, arith, After, After-bind, after_reject, after_value, After_elim, ok_injective,
}
use bseal_cpp.Endian.Laws.{le64, append_u64_le_lem, read_u64_le-append}
use bseal_cpp.Crypto.Kdf.{hkdf_sha256}
use bseal_cpp.Crypto.Kdf.Laws.{hkdf_length, append_injective}
use bseal_cpp.Crypto.Keys.{
  CipherSuite, make_info, key_size_for_suite, nonce_size_for_suite, ExpandedKeys, NonceContext,
  expand_keys, derive_chunk_nonce, chunk_key_label, manifest_key_label, header_key_label,
  nonce_key_label, nonce_prefix_label,
}
use bseal_cpp.Endian.{read_u64_le}

le64_injective : (a b : ℕ) → a < 2 ^ 64 → b < 2 ^ 64 → le64 a ≡ le64 b → a ≡ b
le64_injective a b ha hb e =
    let read : ok (a, []) ≡ ok (b, []) =
      sym (read_u64_le-append "" a [] ha)
      ∙ ap (λ bytes. read_u64_le "" (bytes ++ [])) e
      ∙ read_u64_le-append "" b [] hb in
    ap (λ p. p.0) (ok_injective read)

KeyFacts : CipherSuite → ExpandedKeys → Type 0
KeyFacts suite k =
    (length k.chunk_encryption_key ≡ key_size_for_suite suite)
    × (length k.manifest_key ≡ 32)
    × (length k.header_authentication_key ≡ 32)
    × (length k.nonce_derivation_key ≡ 32)

module _ (derive : List ℕ → List ℕ → List ℕ → ℕ → Option (List ℕ)) where
  -- A nonce is the prefix, which depends on the key and the archive alone, and the chunk index.
  NonceFacts : List ℕ → NonceContext → ℕ → List ℕ → Type 0
  NonceFacts key context index nonce =
      (prefix : List ℕ) × (hkdf_sha256 derive key context.archive_id
          (make_info nonce_prefix_label context.suite) (nonce_size_for_suite context.suite - 8)
        ≡ ok prefix)
      × (nonce ≡ prefix ++ le64 index)
      × (length nonce ≡ nonce_size_for_suite context.suite)

  nonce_length :
      (suite : CipherSuite) (prefix : List ℕ) (index : ℕ)
      → length prefix ≡ nonce_size_for_suite suite - 8
      → length (prefix ++ le64 index) ≡ nonce_size_for_suite suite
  unfolding nonce_size_for_suite
  nonce_length CipherSuite.x_cha_cha20_poly1305 prefix index e =
      omega (arith, e, length-append prefix (le64 index))
  nonce_length CipherSuite.aes256_gcm prefix index e =
      omega (arith, e, length-append prefix (le64 index))

  nonce_facts :
      (key : List ℕ) (context : NonceContext) (index : ℕ)
      → After (NonceFacts key context index) (derive_chunk_nonce derive key context index)
  unfolding derive_chunk_nonce NonceFacts
  nonce_facts key context index =
      let Q = NonceFacts key context index in
      let size = nonce_size_for_suite context.suite - 8 in
      let info = make_info nonce_prefix_label context.suite in
      after_reject Q (length key == 0) _ _ λ _.
        after_reject Q (ltb (nonce_size_for_suite context.suite) 12) _ _ λ _.
          after_value Q (hkdf_sha256 derive key context.archive_id info size) _ λ prefix e.
            let (len, _) =
              After_elim (λ out. (length out ≡ size) × (0 < size))
                (hkdf_sha256 derive key context.archive_id info size) prefix
                (hkdf_length derive key context.archive_id info size) e in
            (
              prefix,
              e,
              append_u64_le_lem prefix index,
              ap length (append_u64_le_lem prefix index)
                  ∙ nonce_length context.suite prefix index len,
            )

  -- A nonce has the length of its suite, and no two chunks of an archive have the same nonce.
  pub chunk_nonce_unique :
      (key : List ℕ) (context : NonceContext) (i j : ℕ) (nonce : List ℕ)
      → i < 2 ^ 64
      → j < 2 ^ 64
      → derive_chunk_nonce derive key context i ≡ ok nonce
      → derive_chunk_nonce derive key context j ≡ ok nonce
      → (i ≡ j) × (length nonce ≡ nonce_size_for_suite context.suite)
  unfolding NonceFacts
  chunk_nonce_unique key context i j nonce hi hj di dj =
      let (p, pi, ni, len) =
        After_elim (NonceFacts key context i) _ nonce (nonce_facts key context i) di in
      let (q, qj, nj, _) =
        After_elim (NonceFacts key context j) _ nonce (nonce_facts key context j) dj in
      let same : p ≡ q = ok_injective (sym pi ∙ qj) in
      let (_, tail) = append_injective p q (le64 i) (le64 j) (ap length same) (sym ni ∙ nj) in
      (le64_injective i j hi hj tail, len)

  expand_facts :
      (seed : List ℕ) (suite : CipherSuite) → After (KeyFacts suite) (expand_keys derive seed suite)
  unfolding expand_keys KeyFacts
  expand_facts seed suite =
      let Q = KeyFacts suite in
      after_reject Q (not (length seed == 32)) _ _ λ _.
        After-bind (λ out. (length out ≡ key_size_for_suite suite) × (0 < key_size_for_suite suite))
          Q _ _
          (hkdf_length derive seed [] (make_info chunk_key_label suite) (key_size_for_suite suite))
          λ a (x, _).
            After-bind (λ out. (length out ≡ 32) × (0 < 32)) Q _ _
              (hkdf_length derive seed [] (make_info manifest_key_label suite) 32)
              λ b (y, _).
                After-bind (λ out. (length out ≡ 32) × (0 < 32)) Q _ _
                  (hkdf_length derive seed [] (make_info header_key_label suite) 32)
                  λ c (z, _).
                    After-bind (λ out. (length out ≡ 32) × (0 < 32)) Q _ _
                      (hkdf_length derive seed [] (make_info nonce_key_label suite) 32)
                      λ d (w, _). (x, y, z, w)
